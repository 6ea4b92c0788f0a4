-- ===== src/Tests/Prompts.antt =====
-- Concrete prompt templates (internal/vertexai/prompt/template.go).
use adk_go.Prompt.Apply.{GoTemplate, strict, simple, warn}
use adk_go.Prompt.Compile.{
  TemplateProcessor, CompiledTemplate, compile_fresh, compile, execute, apply_variables,
  extract_variables,
}
use adk_go.Prompt.Compile.Executes.{execute-compile, IsCached}
use adk_go.GoMap
use adk_go.Base.{refl, Text, [], codes, ℕ, false, ◌∷◌, none, ◌≡◌}
use adk_go.Prompt.Scan.{extract_simple_variables, variables_in, unique_from}

abbrev greeting : Text
greeting = codes "hi {name}"

abbrev processor : TemplateProcessor
processor = record { engine = simple; mode = strict }

abbrev no_go_templates : GoTemplate ℕ
no_go_templates = record {
  parses = λ t. false;
  variables = λ t. [];
  executes = λ t vs. none;
  show = λ v. v ∷ [];
}

abbrev greeting_compiled : CompiledTemplate
greeting_compiled = record {
  original_template = greeting;
  variables = codes "name" ∷ [];
  engine = simple;
}

nothing-IsCached : IsCached no_go_templates processor []
unfolding IsCached GoMap.get
nothing-IsCached text c e = cc

execute-compile_example :
    IsCached no_go_templates processor (compile no_go_templates processor [] greeting).0
    × (execute no_go_templates greeting_compiled []
        ≡ apply_variables no_go_templates (record processor { mode = warn }) greeting [])
unfolding compile compile_fresh extract_variables extract_simple_variables variables_in unique_from
    GoMap.get
execute-compile_example =
    execute-compile no_go_templates processor [] greeting greeting_compiled [] nothing-IsCached
      (λ e. cc) refl
