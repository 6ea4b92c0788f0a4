-- ===== src/Request.antt =====
-- types/model_llm_request.go: the request to a model. A tool is a value of the parameter `T`, told by its
-- name and its declaration; a schema is a value of `S`, a safety setting one of `C`, and a nil map of
-- tools is `none`. Contents and settings are not nil.
pub mod Appended
use adk_go.GoMap
use adk_go.GoMap.{GoMap}
use adk_go.Genai.{Part, Content, text_part}
use adk_go.Base.{
  Text, Option, none, some, List, [], ◌∷◌, ◌++◌, map, Outcome, ok, panic, ◌>>=◌, eqb, length, codes,
  if◌then◌else◌, text_comparable,
}

pub record RequestTool (T D : Type 0) : Type 0 where
  pub tool : T
  pub name : Text
  pub declaration : Option D

-- The fields of `genai.GenerateContentConfig` that are written; of a tool only the declarations.
pub record RequestConfig (V D S C : Type 0) : Type 0 where
  pub system_instruction : Option (Content V)
  pub tools : List (List (Option D))
  pub safety_settings : List C
  pub response_schema : Option S
  pub response_mime_type : Text

-- `LLMRequest`; the live configuration `L` is only passed on.
pub record LlmRequest (V T D S C L : Type 0) : Type 0 where
  pub model : Text
  pub contents : List (Content V)
  pub config : Option (RequestConfig V D S C)
  pub live_connect_config : Option L
  pub tool_map : Option (GoMap Text T)

abbrev pub empty_config : {V D S C : Type 0} → RequestConfig V D S C
empty_config = record {
  system_instruction = none;
  tools = [];
  safety_settings = [];
  response_schema = none;
  response_mime_type = [];
}

-- The text of `AppendInstructions`, with `strings.Join`.
unfoldable pub joined : List Text → Text
joined [] = []
joined (t ∷ []) = t
joined (t ∷ u ∷ ts) = t ++ codes "\n\n" ++ joined (u ∷ ts)

abbrev pub instruction_part : {V : Type 0} → List Text → Part V
instruction_part instructions = text_part (codes "\n\n" ++ joined instructions)

-- The system instruction behind `AppendInstructions`.
unfoldable pub instruct : {V : Type 0} → List Text → Option (Content V) → Content V
unfolding joined
instruct instructions none = record { role = []; parts = instruction_part instructions ∷ [] }
instruct instructions (some s) = record s { parts = s.parts ++ instruction_part instructions ∷ [] }

-- The writes to the map in the loop of `AppendTools`.
unfoldable pub add_to_map :
    {T D : Type 0}
    → List (RequestTool T D)
    → Option (GoMap Text T)
    → Outcome (Option (GoMap Text T))
unfolding GoMap.set
add_to_map [] m = ok m
add_to_map (t ∷ ts) none = panic
add_to_map (t ∷ ts) (some m) = add_to_map ts (some (GoMap.set t.name t.tool m))

-- The parts of `ToGenaiContents`.
unfoldable pub text_parts : {V : Type 0} → List (Part V) → List (Part V)
text_parts [] = []
text_parts (p ∷ ps) =
    let rest = text_parts ps in if eqb (length p.text) 0 then rest else text_part p.text ∷ rest

unfoldable pub text_content : {V : Type 0} → Content V → Content V
unfolding text_parts
text_content c = record c { parts = text_parts c.parts }

module _ {V T D S C L : Type 0} where
  -- `&LLMRequest{}`, which `LLMFlow` makes, and `NewLLMRequest` before its options.
  abbrev pub empty_request : LlmRequest V T D S C L
  empty_request = record {
    model = [];
    contents = [];
    config = none;
    live_connect_config = none;
    tool_map = none;
  }

  -- The configuration behind `if r.Config == nil`.
  abbrev pub config_of : LlmRequest V T D S C L → RequestConfig V D S C
  config_of r = elim r.config [ none ↦ empty_config | some c ↦ c ]

  -- The options, and `NewLLMRequest`.
  unfoldable pub with_safety_settings : List C → LlmRequest V T D S C L → LlmRequest V T D S C L
  with_safety_settings settings r =
      let c = config_of r in
      record r { config = some (record c { safety_settings = c.safety_settings ++ settings }) }

  unfoldable pub apply_options :
      List (LlmRequest V T D S C L → LlmRequest V T D S C L)
      → LlmRequest V T D S C L
      → LlmRequest V T D S C L
  apply_options [] r = r
  apply_options (f ∷ fs) r = apply_options fs (f r)

  unfoldable pub new_llm_request :
      List (Content V)
      → List (LlmRequest V T D S C L → LlmRequest V T D S C L)
      → LlmRequest V T D S C L
  unfolding apply_options
  new_llm_request contents options =
      apply_options options (record empty_request { contents = contents; tool_map = some [] })

  -- `AppendInstructions`
  unfoldable pub append_instructions : List Text → LlmRequest V T D S C L → LlmRequest V T D S C L
  unfolding instruct
  append_instructions instructions r =
      let c = config_of r in
      record r {
        config =
            some
              (record c { system_instruction = some (instruct instructions c.system_instruction) });
      }

  -- `AppendTools`
  unfoldable pub append_tools :
      List (RequestTool T D) → LlmRequest V T D S C L → Outcome (LlmRequest V T D S C L)
  unfolding add_to_map
  append_tools tools r = do
    m ← add_to_map tools r.tool_map
    let c = config_of r
    ok (record r {
      config = some (record c { tools = c.tools ++ map (λ t. t.declaration) tools ∷ [] });
      tool_map = m;
    })

  -- `SetOutputSchema`
  unfoldable pub set_output_schema : Option S → LlmRequest V T D S C L → LlmRequest V T D S C L
  set_output_schema schema r =
      let c = config_of r in
      record r {
        config =
            some (record c {
              response_schema = schema;
              response_mime_type = codes "application/json";
            });
      }

  -- `ToGenaiContents`
  unfoldable pub to_genai_contents : LlmRequest V T D S C L → List (Content V)
  unfolding text_content
  to_genai_contents r = map text_content r.contents
