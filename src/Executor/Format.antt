-- ===== src/Executor/Format.antt =====
-- codeexecutor/delimiters.go, `ExecutionResultFormatter`: the text of an execution result. Decimal
-- numbers and `strings.TrimSpace` are parameters.
use adk_go.Executor.Blocks.{DelimiterPair}
use adk_go.Base.{
  List, Option, Text, ℕ, ℤ, Bool, [], if◌then◌else◌, ◌++◌, ◌∷◌, codes, eqb, false, pos, some,
  length, negsuc, none, not,
}

-- A file of the output: its name and its size.
pub record OutputFile : Type 0 where
  pub name : Text
  pub size : ℕ

-- The fields of `types.CodeExecutionResult` that are read here; the error is its text.
pub record ExecutionResult : Type 0 where
  pub stdout : Text
  pub stderr : Text
  pub exit_code : ℤ
  pub error : Option Text
  pub output_files : List OutputFile

abbrev pub newline : Text
newline = 10 ∷ []

-- `strings.HasSuffix(s, "\n")`
abbrev pub ends_line : Text → Bool
ends_line [] = false
ends_line (c ∷ []) = eqb c 10
ends_line (c ∷ d ∷ s) = ends_line (d ∷ s)

abbrev pub is_zero : ℤ → Bool
is_zero (pos n) = eqb n 0
is_zero (negsuc n) = false

-- A text that is not empty, with what stands before it, on lines of its own.
abbrev pub lines_of : Text → Text → Text
lines_of before s =
    if eqb (length s) 0 then [] else if ends_line s then before ++ s else before ++ s ++ newline

abbrev pub error_line : Option Text → Text
error_line none = []
error_line (some e) = codes "Execution error: " ++ e ++ newline

unfoldable pub file_lines : (decimal : ℕ → Text) → List OutputFile → Text
file_lines decimal [] = []
file_lines decimal (f ∷ fs) =
    codes "- "
    ++ f.name
    ++ codes " ("
    ++ decimal f.size
    ++ codes " bytes)"
    ++ newline
    ++ file_lines decimal fs

abbrev pub files_text : (decimal : ℕ → Text) → List OutputFile → Text
files_text decimal fs =
    if eqb (length fs) 0
    then []
    else newline
      ++ codes "[Generated "
      ++ decimal (length fs)
      ++ codes " output file(s)]"
      ++ newline
      ++ file_lines decimal fs

-- `FormatResult`
unfoldable pub format_result : (decimal : ℕ → Text) → DelimiterPair → ExecutionResult → Text
unfolding file_lines
format_result decimal d r =
    d.start
    ++ (if is_zero r.exit_code
        then lines_of [] r.stdout
        else lines_of (codes "Error: ") r.stderr ++ error_line r.error)
    ++ files_text decimal r.output_files
    ++ d.finish

-- `FormatInlineResult`
unfoldable pub format_inline_result : (trim_space : Text → Text) → ExecutionResult → Text
format_inline_result trim_space r =
    if is_zero r.exit_code
    then (if eqb (length r.stdout) 0
        then codes "Execution completed successfully"
        else trim_space r.stdout)
    else if not (eqb (length r.stderr) 0)
    then codes "error: " ++ trim_space r.stderr
    else elim r.error [ some e ↦ codes "execution failed: " ++ e | none ↦ codes "Execution failed" ]
