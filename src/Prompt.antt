-- ===== src/Prompt.antt =====
-- internal/vertexai/prompt/template.go: prompt templates with variables in braces. Go's text/template is
-- a parameter, and so is the text that `%v` prints.
pub mod Scan
pub mod Apply
pub mod Missing
pub mod Compile
