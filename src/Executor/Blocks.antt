-- ===== src/Executor/Blocks.antt =====
-- codeexecutor/delimiters.go: the code blocks of a text. Regular expressions are a parameter `find`: the
-- matches of a pattern in the text, each with its span and the spans of its groups.
use adk_go.GoMap
use adk_go.GoMap.{GoMap}
use adk_go.Base.{
  List, Text, ℕ, ◌∷◌, Bool, [], if◌then◌else◌, ◌++◌, codes, eqb, some, true, false, length,
  text_comparable, ◌||◌, has_prefix, keep, none,
}

-- `types.DelimiterPair`
pub record DelimiterPair : Type 0 where
  pub start : Text
  pub finish : Text

pub record CodeBlock : Type 0 where
  pub language : Text
  pub code : Text
  pub start : ℕ
  pub finish : ℕ

-- The two regular expressions of the file: a markdown block, and a delimiter pair.
pub data Pattern : Type 0 where
  markdown : Pattern
  between : Text → Text → Pattern

-- A match: its span, and the texts of its groups.
pub record Match : Type 0 where
  pub start : ℕ
  pub finish : ℕ
  pub groups : List Text

-- `strings.Contains`
abbrev pub contains : Text → Text → Bool
contains [] word = eqb (length word) 0
contains (x ∷ text) word = has_prefix (x ∷ text) word || contains text word

-- `inferLanguageFromDelimiter`, with `strings.ToLower` as the parameter `lower`.
unfoldable pub infer_language_from_delimiter : (lower : Text → Text) → Text → Text
infer_language_from_delimiter lower start =
    let s = lower start in
    if contains s (codes "python")
    then codes "python"
    else if contains s (codes "go")
    then codes "go"
    else if contains s (codes "javascript") || contains s (codes "js")
    then codes "javascript"
    else if contains s (codes "bash") || contains s (codes "shell")
    then codes "bash"
    else if contains s (codes "tool_code")
    then codes "python"
    else []

-- The loop of `extractMarkdownCodeBlocks`.
unfoldable pub markdown_blocks : List Match → List CodeBlock
markdown_blocks [] = []
markdown_blocks (m ∷ ms) =
    let rest = markdown_blocks ms in
    elim m.groups [
      | language ∷ code ∷ _ ↦
          record { language = language; code = code; start = m.start; finish = m.finish } ∷ rest
      | _ ↦ rest
    ]

-- The inner loop of `extractDelimiterCodeBlocks`.
unfoldable pub blocks_between : Text → List Match → List CodeBlock
blocks_between language [] = []
blocks_between language (m ∷ ms) =
    let rest = blocks_between language ms in
    elim m.groups [
      | code ∷ _ ↦
          record { language = language; code = code; start = m.start; finish = m.finish } ∷ rest
      | [] ↦ rest
    ]

-- `extractDelimiterCodeBlocks`; a pattern of quoted texts always compiles.
unfoldable pub extract_delimiter_code_blocks :
    (lower : Text → Text) → (find : Pattern → List Match) → List DelimiterPair → List CodeBlock
unfolding infer_language_from_delimiter blocks_between
extract_delimiter_code_blocks lower find [] = []
extract_delimiter_code_blocks lower find (d ∷ ds) =
    blocks_between (infer_language_from_delimiter lower d.start) (find (between d.start d.finish))
    ++ extract_delimiter_code_blocks lower find ds

-- The key of a span, with decimal numbers as the parameter `decimal`.
abbrev pub span_key : (decimal : ℕ → Text) → CodeBlock → Text
span_key decimal b = decimal b.start ++ codes "-" ++ decimal b.finish

-- The loop of `deduplicateBlocks`, with the map `seen`.
unfoldable pub deduplicate_from :
    (decimal : ℕ → Text) → GoMap Text Bool → List CodeBlock → List CodeBlock
unfolding GoMap.set
deduplicate_from decimal seen [] = []
deduplicate_from decimal seen (b ∷ bs) =
    let kept = b ∷ deduplicate_from decimal (GoMap.set (span_key decimal b) true seen) bs in
    let skipped = deduplicate_from decimal seen bs in
    elim (GoMap.get (span_key decimal b) seen) [ some true ↦ skipped | _ ↦ kept ]

-- `deduplicateBlocks`
unfoldable pub deduplicate_blocks : (decimal : ℕ → Text) → List CodeBlock → List CodeBlock
unfolding deduplicate_from
deduplicate_blocks decimal bs = deduplicate_from decimal [] bs

-- `ExtractCodeBlocks`
unfoldable pub extract_code_blocks :
    (decimal : ℕ → Text)
    → (lower : Text → Text) → (find : Pattern → List Match) → List DelimiterPair
    → List CodeBlock
unfolding extract_delimiter_code_blocks markdown_blocks deduplicate_blocks
extract_code_blocks decimal lower find delimiters =
    deduplicate_blocks decimal
      (markdown_blocks (find markdown) ++ extract_delimiter_code_blocks lower find delimiters)

-- The loop that fills `languageSet`.
unfoldable pub language_set : (lower : Text → Text) → List Text → GoMap Text Bool → GoMap Text Bool
unfolding GoMap.set
language_set lower [] seen = seen
language_set lower (l ∷ ls) seen = language_set lower ls (GoMap.set (lower l) true seen)

-- A read of a `map[string]bool`.
abbrev pub is_in : Text → GoMap Text Bool → Bool
is_in key m = elim (GoMap.get key m) [ some b ↦ b | none ↦ false ]

-- `FilterByLanguage`
unfoldable pub filter_by_language :
    (lower : Text → Text) → List CodeBlock → List Text → List CodeBlock
unfolding language_set
filter_by_language lower bs languages =
    if eqb (length languages) 0
    then bs
    else keep (λ b. is_in (lower b.language) (language_set lower languages [])) bs
