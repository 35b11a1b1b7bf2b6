-- ===== src/Lib.antt =====
-- A verification library for ShellSight, an on-demand webshell sweep for incident response.
--
-- The program. A scan (shellsight/cmd/shellsight) starts probes, one for each view of a host (files on
-- disk, the memory of Java and .NET workers, native memory, logs). Every probe reports findings
-- (shellsight/internal/finding) and says what it covered; fusion (shellsight/internal/fusion) joins them
-- into one scored verdict, from which the exit status follows. The disk probe reads Java class files with
-- a bytecode decoder and a control flow graph of its own (shellsight/internal/javadisk). A console
-- collects the findings of many scans and shows them in groups of one content (console/internal/triage).
--
-- Which file models what.
--   Finding      shellsight/internal/finding/finding.go, verdict.go: the records and `Rank`.
--   Fusion       shellsight/internal/fusion/fusion.go: `Assess`, one definition for each of its steps.
--     Normalize  normalize.go: `mitreFor`, `familyFromEvidence`, `fingerprint`, `targetKey`.
--     Score      `scoreFinding`, `corroborated`, `isCredibleSignal`, `tierForScore`.
--   ExitCode     shellsight/cmd/shellsight/main.go: `exitCode`.
--   Bytecode     shellsight/internal/javadisk/bytecode.go: Words has the checked arithmetic and the
--                big-endian reads, Opcodes the table of widths and the opcode classes, Decode the three
--                decoders and the loop of `decodeInstructionsCounted`. Shapes says how the instructions
--                are laid out, apart from the decoders; Widths, Jumps, Targets, Switches and Layouts
--                relate each decoder to it, and Listing the whole code.
--   Cfg          shellsight/internal/javadisk/cfg.go: Offsets has the sets of offsets, Validate the
--                checks of the stream and the handlers, Build the rest of `buildCFG`.
--   Descriptor   shellsight/internal/javadisk/descriptor.go: the parser of descriptors, and in Grammar the
--                descriptors of the class file format as trees that are printed.
--   ClassReader  shellsight/internal/javadisk/classreader.go: the reader of class files, and in Numbers
--                the numbers as they are printed.
--   Mutf8        shellsight/internal/javadisk/mutf8.go: the decoder of modified UTF-8, and in Encode the
--                encoding that the class file format gives.
--   Pool         shellsight/internal/javadisk/classparser.go: `parseConstantPool`, with the entries of
--                classmodel.go, and in Items the constants of the class file format as they are printed.
--   ClassNames   shellsight/internal/javadisk/classparser.go: the checks on the names of classes, fields
--                and methods.
--   Constants    shellsight/internal/javadisk/classmodel.go: the constants behind an index, and in Validate
--                the check of every reference; Spec has what the class file format asks of them.
--   Bootstraps   shellsight/internal/javadisk/classmodel.go: `computeBootstrapFailures`, and in Resolves the
--                constants that can be resolved.
--   Operands     shellsight/internal/javadisk/abstract.go: the operand stack of a frame and the budget, with
--                `transferStackOperation`, `transferDup2X2`, `pushValue`, `popValue` and
--                `chargeValueCopies`.
--   Triage       console/internal/triage/triage.go: `Groups`, with the record FindingRecord of
--                console/internal/store/store.go.
--   Common       what the modules share: tests, lists, integers, texts and results.
--   Examples     runs at concrete inputs.
-- The other modules hold proofs and are named for what they prove.
--
-- How the model stands to the code.
--   A Go string is a text (in Descriptor, Pool, ClassNames and Constants the list of its bytes, in Mutf8 of its code points), and `Tier` a data type whose `other` holds every text that is no named tier.
--   A score is an integer; the code only compares scores. A byte is a number, an `int32` an integer, and a
--   `uint64` sum is checked as `checkedAddUint64` checks it. A Go map that is only looked up is a list of
--   pairs, a set a list without repetition; where Go ranges over a map with an effect on the result
--   (`familyFingerprints`), the order is an argument. SHA-256 is an argument, `digest`. An error is a
--   constructor with the numbers that its text names.
--   A loop over a slice is a recursion on the list; `Assess` scores in place as the code does. The loop of
--   `decodeInstructionsCounted` has one round of fuel more than the code has bytes, which is enough since
--   every instruction is one byte long at least. The loop over the parameters of a descriptor has as many
--   rounds as the text has bytes. `parseType` calls itself for the component of an array, at a byte that is
--   no `[`, so that two levels are enough. The parser's state is its index, and its loops run over the bytes
--   from there on. The decoder of modified UTF-8 has one round more than there are bytes; the constant pool
--   has as many rounds as slots, and every constant takes a slot. A search of `computeBootstrapFailures` goes one constant deeper at each round
--   of fuel and never into a constant twice, so that one round more than there are slots is enough.
--
-- Not modelled. `Classification.Confidence`, a constant float. The texts of errors. The start of probes,
-- file systems, the YARA engine, the console's database and web server, which are input and output.
pub mod Common
pub mod Finding
pub mod Fusion
pub mod ExitCode
pub mod Bytecode
pub mod Cfg
mod Examples
pub mod Descriptor
pub mod ClassReader
pub mod Triage
pub mod Mutf8
pub mod Pool
pub mod ClassNames
pub mod Constants
pub mod Bootstraps
pub mod Operands
