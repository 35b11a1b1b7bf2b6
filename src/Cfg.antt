-- ===== src/Cfg.antt =====
-- shellsight/internal/javadisk/cfg.go: the control flow graph of a method.
pub mod Offsets
pub mod Validate
pub mod Build
pub mod Accepts
pub mod Leaders
pub mod Closed
pub mod Partition
pub mod Graph
