-- ===== src/Tests/Plans.antt =====
-- Runs of the planner.
use adk_go.Genai.{call_part, text_part}
use adk_go.Event.{calls_of}
use adk_go.Tests.{lookup}
use adk_go.Planner.{process_planning_response}
use adk_go.Planner.Split.{process_planning_response_lem}
use adk_go.Base.{◌≡◌, [], ◌∷◌, codes}

-- A text and two calls: both calls are kept. Without the text before them only one would be.
process_planning_response_lem_example :
    calls_of (
      process_planning_response
        (text_part (codes "plan") ∷ call_part lookup ∷ call_part lookup ∷ []))
    ≡ lookup ∷ lookup ∷ []
unfolding calls_of
process_planning_response_lem_example =
    process_planning_response_lem
      (text_part (codes "plan") ∷ call_part lookup ∷ call_part lookup ∷ [])
