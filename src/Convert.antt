-- ===== src/Convert.antt =====
-- types/aiconv/aiconv.go: conversions between the structs of google.golang.org/genai and those of the
-- Vertex AI protocol buffers. A value that has no counterpart panics.
pub mod Schemas
pub mod Contents
pub mod Undone
pub mod Safety
pub mod Tools
pub mod Usage
