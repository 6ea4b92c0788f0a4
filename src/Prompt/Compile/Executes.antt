-- ===== src/Prompt/Compile/Executes.antt =====
-- Executing a compiled template (internal/vertexai/prompt/template.go) and applying the template itself.
use adk_go.Prompt.Compile.{
  TemplateProcessor, CompiledTemplate, compile, compile_fresh, execute, apply_variables,
}
use adk_go.Prompt.Apply.{TemplateEngine, simple, advanced, jinja, GoTemplate, warn, ValidationMode}
use mathlib.Core.Path.{subst}
use adk_go.GoMap
use adk_go.GoMap.{GoMap}
use adk_go.GoMap.Laws.{get-set}
use adk_go.Base.{
  refl, Text, ◌≡◌, Option-cases, some, inl, text_comparable, arith, inr, Bool-cases, ◌≢◌, sym, ◌==◌,
  ==_iff, ◌∙◌,
}

module _ {V : Type 0} (go : GoTemplate V) where
  fresh-executes :
      (engine : TemplateEngine) (mode : ValidationMode) (text : Text) (c : CompiledTemplate)
      (variables : GoMap Text V)
      → engine ≢ jinja
      → compile_fresh go (record { engine = engine; mode = mode }) text ≡ some c
      → execute go c variables
        ≡ apply_variables go (record { engine = engine; mode = warn }) text variables
  unfolding compile_fresh execute apply_variables
  fresh-executes simple mode text c variables n e = ground (arith, e)
  fresh-executes advanced mode text c variables n e = ground (arith, e)
  fresh-executes jinja mode text c variables n e = absurd (n refl)

module _ {V : Type 0} (go : GoTemplate V) (p : TemplateProcessor) where
  -- What is cached under a text is what the processor makes of that text.
  unfoldable pub IsCached : GoMap Text CompiledTemplate → Type 0
  IsCached cache =
      (text : Text) (c : CompiledTemplate)
      → GoMap.get text cache ≡ some c
      → compile_fresh go p text ≡ some c

  compile-fresh :
      (cache : GoMap Text CompiledTemplate) (text : Text)
      → IsCached cache
      → (compile go p cache text).1 ≡ compile_fresh go p text
  unfolding IsCached compile
  compile-fresh cache text cached = elim (Option-cases (GoMap.get text cache)) [
    | inl missing ↦ elim (Option-cases (compile_fresh go p text)) [
      | inl refused ↦ ground (arith, missing, refused)
      | inr (c, made) ↦ ground (arith, missing, made)
    ]
    | inr (c, there) ↦ ground (arith, there, cached text c there)
  ]

  put-IsCached :
      (cache : GoMap Text CompiledTemplate) (text : Text) (d : CompiledTemplate)
      → IsCached cache
      → compile_fresh go p text ≡ some d
      → IsCached (GoMap.set text d cache)
  unfolding IsCached
  put-IsCached cache text d cached made = λ other c e. elim (Bool-cases (text == other)) [
    | inl same ↦
        let at = (==_iff text other).0 same in
        let value = (sym (get-set text other d cache) ∙ e) in
        subst (λ t. compile_fresh go p t ≡ some c) at (made ∙ ground (arith, same, value))
    | inr apart ↦ cached other c (ground (arith, apart, get-set text other d cache, e))
  ]

  compile-IsCached :
      (cache : GoMap Text CompiledTemplate) (text : Text)
      → IsCached cache
      → IsCached (compile go p cache text).0
  unfolding compile
  compile-IsCached cache text cached = elim (Option-cases (GoMap.get text cache)) [
    | inl missing ↦ elim (Option-cases (compile_fresh go p text)) [
      | inl refused ↦ rw (compile, missing, refused) cached
      | inr (d, made) ↦ rw (compile, missing, made) (put-IsCached cache text d cached made)
    ]
    | inr (d, there) ↦ rw (compile, there) cached
  ]

  -- A cache that holds under each text what the processor makes of it stays so, and for an engine that
  -- is not the Jinja one, executing what `Compile` returns is what applying the template is in the mode
  -- that warns, whatever the mode of the processor.
  pub execute-compile :
      (cache : GoMap Text CompiledTemplate) (text : Text) (c : CompiledTemplate)
      (variables : GoMap Text V)
      → IsCached cache
      → p.engine ≢ jinja
      → (compile go p cache text).1 ≡ some c
      → IsCached (compile go p cache text).0
        × (execute go c variables ≡ apply_variables go (record p { mode = warn }) text variables)
  execute-compile cache text c variables cached not_jinja made = (
    compile-IsCached cache text cached,
    fresh-executes go p.engine p.mode text c variables not_jinja
        (sym (compile-fresh cache text cached) ∙ made),
  )
