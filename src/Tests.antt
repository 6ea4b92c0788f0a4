-- ===== src/Tests.antt =====
-- Concrete data for the runs of each component, which are in the modules below. Values of Go's type
-- `any` are numbers here.
mod Sessions
mod States
mod Waits
mod Tools
mod Runs
mod Prompts
mod Models
mod Files
mod Plans
mod Merges
mod Flows
mod Tasks
mod Requests
mod Responses
mod Conversions
use adk_go.Genai.{
  Part, Content, FunctionCall, FunctionResponse, text_part, call_part, response_part,
}
use adk_go.Event.{Event, EventActions, LlmResponse, new_event_actions}
use adk_go.Session.{Session}
use adk_go.Service.{Service}
use adk_go.GoMap.{GoMap}
use adk_go.Base.{ℕ, Text, List, [], ◌∷◌, some, none, codes, false, true}

abbrev pub shop : Text
shop = codes "shop"

abbrev pub ann : Text
ann = codes "ann"

abbrev pub first_id : Text
first_id = codes "s-1"

-- A delta with an entry of each namespace.
abbrev pub prices : GoMap Text ℕ
prices =
    (codes "app:rate", 3)
    ∷ (codes "user:rate", 50)
    ∷ (codes "temp:draft", 1)
    ∷ (codes "total", 7)
    ∷ []

abbrev pub priced : EventActions ℕ
priced = record new_event_actions { state_delta = prices }

abbrev pub text_content : Content ℕ
text_content = record { role = codes "model"; parts = text_part (codes "hello") ∷ [] }

abbrev pub lookup : FunctionCall ℕ
lookup = record { id = codes "adk-1"; name = codes "lookup"; args = [] }

abbrev pub call_content : Content ℕ
call_content = record { role = codes "model"; parts = call_part lookup ∷ [] }

abbrev pub response_content : Content ℕ
response_content = record {
  role = codes "user";
  parts = response_part (record { id = codes "adk-1"; name = codes "lookup"; response = [] }) ∷ [];
}

abbrev pub response_of : Content ℕ → LlmResponse ℕ
response_of c = record { content = some c; partial = false }

-- An event of an agent with this content.
abbrev pub event_with : Content ℕ → Event ℕ
event_with c = record {
  llm_response = some (response_of c);
  invocation_id = [];
  author = codes "waiter";
  actions = some priced;
  long_running_tool_ids = none;
  branch = codes "root";
  id = codes "e-1";
  timestamp = 10;
}

abbrev pub said : Event ℕ
said = event_with text_content

-- An event with one function call, and an event with its response.
abbrev pub called : Event ℕ
called = event_with call_content

abbrev pub answered : Event ℕ
answered = event_with response_content

abbrev pub visit : Session ℕ
visit = record {
  id = first_id;
  app_name = shop;
  user_id = ann;
  events = said ∷ [];
  state = [];
  last_update_time = 10;
}

-- A service with one session, one entry of app state and one of user state.
abbrev pub running : Service ℕ
running = record {
  sessions = (shop, (ann, (first_id, visit) ∷ []) ∷ []) ∷ [];
  user_state = (shop, (ann, (codes "rate", 20) ∷ []) ∷ []) ∷ [];
  app_state = (shop, (codes "rate", 2) ∷ []) ∷ [];
}
