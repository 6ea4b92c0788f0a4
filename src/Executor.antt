-- ===== src/Executor.antt =====
-- codeexecutor: the context of code execution (codeexecutor/context.go), the code blocks of a text
-- (codeexecutor/delimiters.go) and the code in a content (codeexecutor/utils.go).
pub mod Context
pub mod Tracks
pub mod Forgets
pub mod Blocks
pub mod Firsts
pub mod Format
pub mod Parts
