-- ===== src/Bytecode.antt =====
-- shellsight/internal/javadisk/bytecode.go: the JVM instruction decoder. A byte is a number below 256,
-- an `int32` is an integer, and a `uint64` sum is checked as the source checks it.
pub mod Words
pub mod Opcodes
pub mod Decode
pub mod Fits
pub mod Stream
pub mod Encode
pub mod Widths
pub mod Jumps
pub mod Shapes
pub mod Switches
pub mod Targets
pub mod Layouts
pub mod Listing
