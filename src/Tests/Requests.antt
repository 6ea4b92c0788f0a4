-- ===== src/Tests/Requests.antt =====
-- Concrete requests to a model (types/model_llm_request.go), and names in snake case
-- (tool/tools/gemini_schema_util.go).
use adk_go.GoMap
use adk_go.GoMap.{GoMap}
use adk_go.Request.{RequestTool, LlmRequest, append_tools, new_llm_request, config_of}
use adk_go.Request.Appended.{append_tools-told, last_named}
use adk_go.Snake.{Unicode, to_snake_case}
use adk_go.Snake.Shape.{IsSound, IsSnake, to_snake_case-IsSnake}
use adk_go.Base.{
  ℕ, Text, ◌&&◌, ◌||◌, none, some, List, [], ◌∷◌, ◌++◌, map, ok, ◌≡◌, refl, codes, leb, or_else,
  ◌+◌, if◌then◌else◌, text_comparable, arith,
}

abbrev fresh : LlmRequest ℕ ℕ ℕ ℕ ℕ ℕ
fresh = new_llm_request [] []

-- Two tools of one name, and one without a declaration.
abbrev three_tools : List (RequestTool ℕ ℕ)
three_tools =
    record { tool = 1; name = codes "lookup"; declaration = some 10 }
    ∷ record { tool = 2; name = codes "greet"; declaration = none }
    ∷ record { tool = 3; name = codes "lookup"; declaration = some 30 }
    ∷ []

append_tools-told_example :
    (q : LlmRequest ℕ ℕ ℕ ℕ ℕ ℕ) × (append_tools three_tools fresh ≡ ok q)
    × ((n : GoMap Text ℕ) × (q.tool_map ≡ some n)
        × ((k : Text) → GoMap.get k n ≡ or_else (last_named k three_tools) (GoMap.get k [])))
    × ((config_of q).tools ≡ (config_of fresh).tools ++ map (λ t. t.declaration) three_tools ∷ [])
    × (q.model ≡ fresh.model)
    × (q.contents ≡ fresh.contents)
    × ((config_of q).system_instruction ≡ (config_of fresh).system_instruction)
    × ((config_of q).response_schema ≡ (config_of fresh).response_schema)
unfolding new_llm_request
append_tools-told_example = append_tools-told three_tools fresh [] refl

abbrev ascii : Unicode
ascii = record {
  is_letter = λ c. (leb 65 c && leb c 90) || (leb 97 c && leb c 122);
  is_digit = λ c. leb 48 c && leb c 57;
  is_upper = λ c. leb 65 c && leb c 90;
  is_lower = λ c. leb 97 c && leb c 122;
  to_lower = λ c. if leb 65 c && leb c 90 then c + 32 else c;
}

ascii-IsSound : IsSound ascii
ascii-IsSound = record { no_letter = refl; no_digit = refl; lowers = λ c h. ground arith }

-- The acronym of `HTTPServer 2` is one word.
snake_name : to_snake_case ascii (codes "HTTPServer 2") ≡ codes "http_server_2"
unfolding to_snake_case
snake_name = refl

to_snake_case-IsSnake_example : IsSnake (to_snake_case ascii (codes "HTTPServer 2"))
to_snake_case-IsSnake_example = to_snake_case-IsSnake ascii ascii-IsSound (codes "HTTPServer 2")
