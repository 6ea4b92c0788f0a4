-- ===== src/Executor/Parts.antt =====
-- codeexecutor/utils.go: code in the parts of a content. A part is told by the fields that are read; one
-- that `clear` has set to nil is `none`. The regular expression of the delimiters is a parameter.
use adk_go.Executor.Blocks.{DelimiterPair}
use adk_go.Executor.Format.{ExecutionResult, newline}
use adk_go.Base.{
  refl, List, Bool, Option, Outcome, Text, if◌then◌else◌, keep, All, [], eqb, none, not, ok, true,
  ◌∷◌, ◌≡◌, is_some, length, panic, some, ◌++◌, arith, codes, map, ◌&&◌, ◌||◌, false,
}

pub record CodePart : Type 0 where
  pub text : Text
  -- `ExecutableCode.Code`, where there is one.
  pub executable_code : Option Text
  -- `CodeExecutionResult`, where there is one: whether its outcome is OK, and its output.
  pub result : Option (Bool × Text)

abbrev pub text_only : Text → CodePart
text_only t = record { text = t; executable_code = none; result = none }

-- `BuildExecutableCodePart`
abbrev pub build_executable_code_part : Text → CodePart
build_executable_code_part code = record { text = []; executable_code = some code; result = none }

-- `strings.Join`
abbrev pub join : Text → List Text → Text
join sep [] = []
join sep (t ∷ []) = t
join sep (t ∷ u ∷ ts) = t ++ sep ++ join sep (u ∷ ts)

-- What the function returns, with the parts that it leaves in the content.
abbrev pub Extracted : Type 0
Extracted = Outcome (Text × List (Option CodePart))

-- Whether the part at this place, with the parts behind it, ends the first loop.
abbrev pub ends_loop : CodePart → List CodePart → Bool
ends_loop p [] = true
ends_loop p (q ∷ ps) = is_some p.executable_code || not (is_some q.result)

-- The first loop of `ExtractCodeAndTruncateContent`, with the parts that it has passed; `none` where it
-- runs to its end.
unfoldable pub extract_from : (passed parts : List CodePart) → Option Extracted
extract_from passed [] = none
extract_from passed (p ∷ ps) =
    let rest = extract_from (passed ++ p ∷ []) ps in
    if ends_loop p ps
    then (elim p.executable_code [
      | none ↦ some panic
      | some code ↦ some (ok (code, map some (passed ++ p ∷ [])))
    ])
    else rest

-- The parts with a text.
abbrev pub text_parts : List CodePart → List CodePart
text_parts parts = keep (λ p. not (eqb (length p.text) 0)) parts

-- The rest of the function: `find` gives the match and its groups in the joined texts.
unfoldable pub extract_from_text : (find : Text → List Text) → List CodePart → Extracted
extract_from_text find parts = elim (text_parts parts) [
  | [] ↦ panic
  | first ∷ more ↦ elim (find (join newline (map (λ p. p.text) (first ∷ more)))) [
    | whole ∷ first_group ∷ code ∷ groups ↦
        if eqb (length code) 0
        then ok ([], map some parts)
        else ok (
          code,
          map (λ p. none) parts
              ++ (if eqb (length whole) 0 then [] else some (record first { text = whole }) ∷ [])
              ++ some (build_executable_code_part code) ∷ [],
        )
    | _ ↦ ok ([], map some parts)
  ]
]

-- `ExtractCodeAndTruncateContent`, on the parts of a content.
unfoldable pub extract_code_and_truncate_content :
    (find : Text → List Text) → List CodePart → Extracted
unfolding extract_from extract_from_text
extract_code_and_truncate_content find [] = ok ([], [])
extract_code_and_truncate_content find (p ∷ ps) = elim (extract_from [] (p ∷ ps)) [
  | some e ↦ e
  | none ↦ extract_from_text find (p ∷ ps)
]

-- `BuildCodeExecutionResultPart`
unfoldable pub build_code_execution_result_part : ExecutionResult → CodePart
build_code_execution_result_part r =
    let report =
      if eqb (length r.stdout) 0 && eqb (length r.output_files) 0
      then []
      else (codes "Code execution result:" ++ newline ++ r.stdout ++ newline ++ newline) ∷ [] in
    let saved =
      if eqb (length r.output_files) 0
      then []
      else (codes "Saved artifacts:"
          ++ newline
          ++ join (codes ",") (map (λ f. f.name) r.output_files)
          ++ newline)
        ∷ [] in
    record (text_only []) {
      result = some (
          if eqb (length r.stderr) 0
          then (true, join (newline ++ newline) (report ++ saved))
          else (false, r.stderr));
    }

-- The replacement of the last part where it has code.
unfoldable pub convert_last : DelimiterPair → List CodePart → Option (List CodePart)
convert_last d [] = none
convert_last d (p ∷ []) = elim p.executable_code [
  | some code ↦ some (text_only (d.start ++ code ++ d.finish) ∷ [])
  | none ↦ none
]
convert_last d (p ∷ q ∷ ps) = elim (convert_last d (q ∷ ps)) [
  | some rest ↦ some (p ∷ rest)
  | none ↦ none
]

-- `ConvertCodeExecutionParts`, on the role and the parts: the parts with a result are not converted,
-- since the length is tested to be 0 behind a return at length 0.
unfoldable pub convert_code_execution_parts :
    DelimiterPair → Text × List CodePart → Text × List CodePart
unfolding convert_last
convert_code_execution_parts d (role, []) = (role, [])
convert_code_execution_parts d (role, p ∷ ps) = elim (convert_last d (p ∷ ps)) [
  | some parts ↦ (role, parts)
  | none ↦ (codes "user", p ∷ ps)
]

module _ (find : Text → List Text) where
  abbrev HasNoCode : CodePart → Type 0
  HasNoCode p = p.executable_code ≡ none

  extract_from-panics :
      (passed : List CodePart) (p : CodePart) (ps : List CodePart)
      → All HasNoCode (p ∷ ps)
      → extract_from passed (p ∷ ps) ≡ some panic
  unfolding extract_from
  extract_from-panics passed p [] (h, _) = ground (arith, h)
  extract_from-panics passed p (q ∷ ps) (h, hs) =
      ground (arith, h, extract_from-panics (passed ++ p ∷ []) q ps hs)

  -- Of a content that has parts, none of them with executable code, the extraction panics, whatever the
  -- delimiters find in its texts.
  extract-panics :
      (p : CodePart) (ps : List CodePart)
      → All HasNoCode (p ∷ ps)
      → extract_code_and_truncate_content find (p ∷ ps) ≡ panic
  unfolding extract_code_and_truncate_content
  extract-panics p ps hs =
      rw (extract_code_and_truncate_content, extract_from-panics [] p ps hs) refl
