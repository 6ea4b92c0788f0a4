-- ===== src/Tests/Models.antt =====
-- Runs of the code on function calls and contents.
use adk_go.Genai.{text_part}
use adk_go.Tests.{text_content, call_content, response_content, response_of, said, called, answered}
use adk_go.Event.{calls_of, responses_of, content_of}
use adk_go.Contents.{
  get_contents, is_kept, is_event_belongs_to_branch, is_auth_event, is_other_agent_reply,
  foreign_part,
}
use adk_go.Contents.Told.{get_contents_lem}
use adk_go.Contents.Rearrange.{rearrange_for_latest, before_last}
use adk_go.Contents.Latest.{rearrange_for_latest_lem}
use adk_go.Base.{◌≡◌, refl, ok, panic, some, codes, [], ◌∷◌, text_comparable}

rearrange_for_latest_lem_example : rearrange_for_latest (called ∷ said ∷ answered ∷ []) ≡ panic
unfolding responses_of calls_of before_last
rearrange_for_latest_lem_example = rearrange_for_latest_lem (called ∷ said ∷ answered ∷ []) (
  (response_of call_content, refl),
  ((response_of text_content, refl), ((response_of response_content, refl), tt)),
)

-- The branch is also the name that the author is compared with, so the reply counts as another's.
get_contents_lem_example :
    get_contents
      (λ m. [])
      panic
      (λ es. es)
      (λ n. [])
      (codes "root")
      (said ∷ record said { author = codes "root" } ∷ [])
    ≡ ok (
        record {
          role = codes "user";
          parts = text_part (codes "For context:") ∷ text_part (codes "[waiter] said: hello") ∷ [];
        }
        ∷ text_content
        ∷ [])
unfolding is_kept is_event_belongs_to_branch is_auth_event is_other_agent_reply foreign_part
    content_of
get_contents_lem_example =
    get_contents_lem (λ m. []) (λ n. []) (codes "root") panic (λ es. es)
      (said ∷ record said { author = codes "root" } ∷ [])
      (
        (some text_content, refl, ((refl, refl), tt)),
        ((some text_content, refl, ((refl, refl), tt)), tt),
      )
