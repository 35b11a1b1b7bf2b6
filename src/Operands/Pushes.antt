-- ===== src/Operands/Pushes.antt =====
-- `pushValue` and `popValue`.
