-- ===== src/Prompt/Compile.antt =====
-- internal/vertexai/prompt/template.go: the processor with its engines and modes, and the compiler.
pub mod Executes
use adk_go.Prompt.Scan.{TemplateError, extract_simple_variables, validate_simple_template}
use adk_go.Prompt.Apply.{
  TemplateEngine, simple, advanced, jinja, ValidationMode, strict, warn, loose, unchecked,
  GoTemplate, ApplyTemplateResponse, apply_simple_variables, is_set, bool_map,
}
use adk_go.GoMap
use adk_go.GoMap.{GoMap}
use adk_go.Base.{
  List, Bool, Option, Text, ◌++◌, if◌then◌else◌, none, some, true, ◌∷◌, [], text_comparable, false,
}

pub record TemplateProcessor : Type 0 where
  pub engine : TemplateEngine
  pub mode : ValidationMode

-- The errors and warnings of a validation.
pub data Issue : Type 0 where
  undeclared unused : Text → Issue
  bad_syntax : TemplateError → Issue
  does_not_parse : Issue

pub record TemplateValidationResult : Type 0 where
  pub is_valid : Bool
  pub errors : List Issue
  pub warnings : List Issue
  pub detected_vars : List Text
  pub undeclared_vars : List Text
  pub unused_vars : List Text

-- The outcome of applying: a response, beside the missing variables in strict mode, or no response.
abbrev pub Applied : Type 0 → Type 0
Applied V = Option (ApplyTemplateResponse V × Option (List Text))

-- `CompiledTemplate`; the compiled Go template is told by its text.
pub record CompiledTemplate : Type 0 where
  pub original_template : Text
  pub variables : List Text
  pub engine : TemplateEngine

-- The loop over the detected variables.
unfoldable pub check_declared :
    ValidationMode
    → GoMap Text Bool
    → List Text
    → TemplateValidationResult
    → TemplateValidationResult
check_declared mode declared [] r = r
check_declared mode declared (v ∷ vs) r =
    let noted = record r { undeclared_vars = r.undeclared_vars ++ v ∷ [] } in
    let next : TemplateValidationResult = elim (is_set v declared) [
      | true ↦ r
      | false ↦ elim mode [
        | strict ↦ record noted { errors = r.errors ++ undeclared v ∷ []; is_valid = false }
        | warn ↦ record noted { warnings = r.warnings ++ undeclared v ∷ [] }
        | loose ↦ noted
        | unchecked ↦ noted
      ]
    ] in
    check_declared mode declared vs next

-- The loop over the declared variables.
unfoldable pub check_unused :
    ValidationMode
    → GoMap Text Bool
    → List Text
    → TemplateValidationResult
    → TemplateValidationResult
check_unused mode detected [] r = r
check_unused mode detected (v ∷ vs) r =
    let noted = record r { unused_vars = r.unused_vars ++ v ∷ [] } in
    let next : TemplateValidationResult = elim (is_set v detected) [
      | true ↦ r
      | false ↦ elim mode [
        | strict ↦ record noted { warnings = r.warnings ++ unused v ∷ [] }
        | _ ↦ noted
      ]
    ] in
    check_unused mode detected vs next

abbrev pub with_error : Issue → TemplateValidationResult → TemplateValidationResult
with_error e r = record r { errors = r.errors ++ e ∷ []; is_valid = false }

module _ {V : Type 0} (go : GoTemplate V) where
  -- `ExtractVariables`, with `extractGoTemplateVariables`.
  unfoldable pub extract_variables : TemplateEngine → Text → List Text
  unfolding extract_simple_variables
  extract_variables simple text = extract_simple_variables text
  extract_variables advanced text = go.variables text
  extract_variables jinja text = extract_simple_variables text

  -- The last switch of `ValidateTemplateDetailed`.
  abbrev pub check_syntax :
      TemplateEngine → Text → TemplateValidationResult → TemplateValidationResult
  check_syntax simple text r = elim (validate_simple_template text) [
    | some e ↦ with_error (bad_syntax e) r
    | none ↦ r
  ]
  check_syntax advanced text r = if go.parses text then r else with_error does_not_parse r
  check_syntax jinja text r = r

  -- `ValidateTemplateDetailed`
  unfoldable pub validate_template_detailed :
      TemplateProcessor → Text → List Text → TemplateValidationResult
  unfolding extract_variables check_declared check_unused bool_map validate_simple_template
  validate_template_detailed p text declared =
      let vs = extract_variables p.engine text in
      let fresh : TemplateValidationResult = record {
        is_valid = true;
        errors = [];
        warnings = [];
        detected_vars = vs;
        undeclared_vars = [];
        unused_vars = [];
      } in
      check_syntax p.engine text (
        check_unused p.mode (bool_map vs []) declared
          (check_declared p.mode (bool_map declared []) vs fresh))

  -- `applyGoTemplateVariables`
  abbrev pub apply_go_template_variables : Text → GoMap Text V → Applied V
  apply_go_template_variables text variables = elim (go.executes text variables) [
    | none ↦ none
    | some content ↦ some (
      record {
        content = content;
        applied_variables = variables;
        missing_variables = [];
        unused_variables = [];
      },
      none,
    )
  ]

  -- `ApplyVariables`
  unfoldable pub apply_variables : TemplateProcessor → Text → GoMap Text V → Applied V
  unfolding apply_simple_variables
  apply_variables p text variables = elim p.engine [
    | advanced ↦ if go.parses text then apply_go_template_variables text variables else none
    | _ ↦ some (apply_simple_variables go.show p.mode text variables)
  ]

  -- The compiled template of a text, as `Compile` makes it.
  unfoldable pub compile_fresh : TemplateProcessor → Text → Option CompiledTemplate
  unfolding extract_variables
  compile_fresh p text =
      let compiled : CompiledTemplate = record {
        original_template = text;
        variables = extract_variables p.engine text;
        engine = p.engine;
      } in
      elim p.engine [
        | advanced ↦ if go.parses text then some compiled else none
        | _ ↦ some compiled
      ]

  -- `Compile`, with the cache.
  unfoldable pub compile :
      TemplateProcessor
      → GoMap Text CompiledTemplate
      → Text
      → GoMap Text CompiledTemplate × Option CompiledTemplate
  unfolding compile_fresh GoMap.set
  compile p cache text = elim (GoMap.get text cache) [
    | some compiled ↦ (cache, some compiled)
    | none ↦ elim (compile_fresh p text) [
      | none ↦ (cache, none)
      | some compiled ↦ (GoMap.set text compiled cache, some compiled)
    ]
  ]

  -- `Execute`: a template of the simple engine is applied in the mode that warns.
  unfoldable pub execute : CompiledTemplate → GoMap Text V → Applied V
  unfolding apply_simple_variables
  execute c variables = elim c.engine [
    | simple ↦ some (apply_simple_variables go.show warn c.original_template variables)
    | advanced ↦ apply_go_template_variables c.original_template variables
    | jinja ↦ none
  ]
