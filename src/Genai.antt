-- ===== src/Genai.antt =====
-- The structs of google.golang.org/genai that the code reads, with the fields that it reads. A value
-- of Go's type `any`, and a struct that is only passed on, is a value of the parameter `V`.
use adk_go.Base.{Bool, false, Option, none, some, List, [], Text}
use adk_go.GoMap.{GoMap}

pub record FunctionCall (V : Type 0) : Type 0 where
  pub id : Text
  pub name : Text
  pub args : GoMap Text V

pub record FunctionResponse (V : Type 0) : Type 0 where
  pub id : Text
  pub name : Text
  pub response : GoMap Text V

pub record Part (V : Type 0) : Type 0 where
  pub text : Text
  pub thought : Bool
  pub function_call : Option (FunctionCall V)
  pub function_response : Option (FunctionResponse V)
  pub code_execution_result : Option V
  -- The fields that the code does not read.
  pub payload : Option V

pub record Content (V : Type 0) : Type 0 where
  pub role : Text
  pub parts : List (Part V)

-- `genai.NewPartFromText`: every field but the text has its zero value.
abbrev pub text_part : {V : Type 0} → Text → Part V
text_part t = record {
  text = t;
  thought = false;
  function_call = none;
  function_response = none;
  code_execution_result = none;
  payload = none;
}

abbrev pub call_part : {V : Type 0} → FunctionCall V → Part V
call_part c = record (text_part []) { function_call = some c }

abbrev pub response_part : {V : Type 0} → FunctionResponse V → Part V
response_part r = record (text_part []) { function_response = some r }
