-- ===== src/Convert/Tools.antt =====
-- types/aiconv/aiconv.go: function declarations, tools and the configuration of a generation, where
-- `others` stands for the fields that the conversions leave out, as in Schemas. A nil slice is the empty
-- one, but for the stop sequences.
pub mod Exact
use adk_go.Convert.Contents.{convert_all, convert_pointer}
use adk_go.Convert.Schemas.{
  Values, SchemaFields, PbFields, MaybeSchema, to_schema, from_schema, unless_zero, deref,
}
use adk_go.Base.{ℤ, pos, Text, Option, none, some, List, [], ◌∷◌, Outcome, ok, ◌>>=◌}

-- `genai.FunctionDeclaration` and `aiplatformpb.FunctionDeclaration`, on schemas `S`; `others` is the
-- schema of the response.
pub record FunctionDeclaration (S O : Type 0) : Type 0 where
  pub name : Text
  pub description : Text
  pub parameters : S
  pub others : Option O

-- `genai.Tool` and `aiplatformpb.Tool`; `others` are its search, its retrieval and the like. Code
-- execution and the search retrieval are pointers to structs of which no field is read.
pub record Tool (S O : Type 0) : Type 0 where
  pub function_declarations : List (Option (FunctionDeclaration S O))
  pub code_execution : Option (Option O)
  pub google_search_retrieval : Option (Option O)
  pub others : Option O

-- `genai.GenerationConfig`
pub record GenerationConfig (S F O : Type 0) : Type 0 where
  pub temperature : Option F
  pub top_p : Option F
  pub top_k : Option F
  pub candidate_count : ℤ
  pub max_output_tokens : ℤ
  pub stop_sequences : Option (List Text)
  pub response_mime_type : Text
  pub response_schema : S
  pub others : Option O

-- `aiplatformpb.GenerationConfig`
pub record PbGenerationConfig (S F O : Type 0) : Type 0 where
  pub temperature : Option F
  pub top_p : Option F
  pub top_k : Option F
  pub candidate_count : Option ℤ
  pub max_output_tokens : Option ℤ
  pub stop_sequences : Option (List Text)
  pub response_mime_type : Text
  pub response_schema : S
  pub others : Option O

-- `ToAIPlatformGoogleSearchRetrieval`, and its likes: a new struct for one that is there.
abbrev pub emptied : {O : Type 0} → Option (Option O) → Option (Option O)
emptied none = none
emptied (some fields) = some none

module _ {S S' O : Type 0} (schema_to : S → Outcome S') where
  -- A declaration that is not nil, by the conversion of its schema.
  unfoldable pub convert_declaration : FunctionDeclaration S O → Outcome (FunctionDeclaration S' O)
  convert_declaration d = do
    s ← schema_to d.parameters
    ok (record { name = d.name; description = d.description; parameters = s; others = none })

  -- A tool that is not nil.
  unfoldable pub convert_tool : Tool S O → Outcome (Tool S' O)
  unfolding convert_declaration convert_pointer convert_all
  convert_tool t = do
    ds ← convert_all (convert_pointer convert_declaration) t.function_declarations
    ok (record {
      function_declarations = ds;
      code_execution = emptied t.code_execution;
      google_search_retrieval = emptied t.google_search_retrieval;
      others = none;
    })

  unfoldable pub convert_tools : List (Option (Tool S O)) → Outcome (List (Option (Tool S' O)))
  unfolding convert_tool convert_pointer convert_all
  convert_tools ts = convert_all (convert_pointer convert_tool) ts

module _ {V P F O : Type 0} (v : Values V P F) where
  -- `ToAIPlatformTools` and `FromAIPlatformTools`
  unfoldable pub to_tools :
      List (Option (Tool (MaybeSchema (SchemaFields V F O)) O))
      → Outcome (List (Option (Tool (MaybeSchema (PbFields P F O)) O)))
  unfolding to_schema convert_tools
  to_tools ts = convert_tools (to_schema v) ts

  unfoldable pub from_tools :
      List (Option (Tool (MaybeSchema (PbFields P F O)) O))
      → Outcome (List (Option (Tool (MaybeSchema (SchemaFields V F O)) O)))
  unfolding from_schema convert_tools
  from_tools ts = convert_tools (from_schema v) ts

  -- `ToAIPlatformGenerationConfig` and `FromAIPlatformGenerationConfig`, on a configuration that is not
  -- nil.
  unfoldable pub to_generation_config :
      GenerationConfig (MaybeSchema (SchemaFields V F O)) F O
      → Outcome (PbGenerationConfig (MaybeSchema (PbFields P F O)) F O)
  unfolding to_schema
  to_generation_config c = do
    s ← to_schema v c.response_schema
    ok (record {
      temperature = c.temperature;
      top_p = c.top_p;
      top_k = c.top_k;
      candidate_count = unless_zero c.candidate_count;
      max_output_tokens = unless_zero c.max_output_tokens;
      stop_sequences = c.stop_sequences;
      response_mime_type = c.response_mime_type;
      response_schema = s;
      others = none;
    })

  unfoldable pub from_generation_config :
      PbGenerationConfig (MaybeSchema (PbFields P F O)) F O
      → Outcome (GenerationConfig (MaybeSchema (SchemaFields V F O)) F O)
  unfolding from_schema
  from_generation_config c = do
    s ← from_schema v c.response_schema
    ok (record {
      temperature = c.temperature;
      top_p = c.top_p;
      top_k = c.top_k;
      candidate_count = deref (pos 0) c.candidate_count;
      max_output_tokens = deref (pos 0) c.max_output_tokens;
      stop_sequences = c.stop_sequences;
      response_mime_type = c.response_mime_type;
      response_schema = s;
      others = none;
    })
