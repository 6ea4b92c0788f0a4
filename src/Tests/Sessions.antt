-- ===== src/Tests/Sessions.antt =====
-- Runs of the in-memory session service.
use adk_go.GoMap
use adk_go.Tests.{shop, ann, first_id, prices, said, visit, running}
use adk_go.Service.{
  append_event, create_session, delete_session, stored, app_value, user_value, new_service, Service,
  store,
}
use adk_go.Service.Store.{stored-append_event}
use adk_go.Service.Commit.{append_event-commits}
use adk_go.Service.Returned.{state-create_session}
use adk_go.Service.Filed.{IsFiled, methods-IsFiled, new_service-IsFiled}
use adk_go.Service.Visible.{IsTidy, append_event-IsTidy, create_session-append_event}
use adk_go.Session.{new_session}
use adk_go.Base.{◌≡◌, some, none, codes, [], ◌∷◌, ℕ, refl, text_comparable}

stored-append_event_example :
    stored (append_event running visit said).0 shop ann first_id
    ≡ some (record visit { events = said ∷ said ∷ [] })
unfolding stored GoMap.get
stored-append_event_example = stored-append_event running visit said shop ann first_id

append_event-commits_example :
    (app_value (append_event running visit said).0 shop (codes "rate") ≡ some 3)
    × (user_value (append_event running visit said).0 shop ann (codes "rate") ≡ some 50)
unfolding stored GoMap.get app_value user_value
append_event-commits_example =
    append_event-commits running visit said shop ann (codes "rate")
      (refl, (refl, (refl, (refl, tt))))

state-create_session_example :
    GoMap.get
      (codes "app:rate")
      (create_session running 20 [] shop ann (codes "s-2") (some prices)).1.state
    ≡ some 2
unfolding GoMap.get
state-create_session_example =
    state-create_session running 20 [] shop ann (codes "s-2") (some prices) (codes "app:rate")
      (refl, tt) (refl, tt) (refl, (refl, (refl, (refl, tt))))

abbrev opened : Service ℕ
opened = (create_session new_service 10 [] shop ann first_id none).0

opened-IsFiled : IsFiled opened
opened-IsFiled =
    (methods-IsFiled new_service 10 [] shop ann first_id none visit said (new_service-IsFiled ℕ)).0

methods-IsFiled_example :
    IsFiled (create_session opened 10 [] shop ann (codes "s-2") none).0
    × IsFiled (delete_session opened shop ann (codes "s-2"))
    × IsFiled (append_event opened visit said).0
methods-IsFiled_example =
    methods-IsFiled opened 10 [] shop ann (codes "s-2") none visit said opened-IsFiled

opened-IsTidy : IsTidy opened
unfolding create_session store GoMap.get
opened-IsTidy = (λ a. tt, λ a u. tt)

append_event-IsTidy_example : IsTidy (append_event opened visit said).0
append_event-IsTidy_example = append_event-IsTidy opened visit said opened-IsTidy

create_session-append_event_example :
    (GoMap.get
        (codes "app:rate")
        (create_session
          (append_event opened visit said).0
          20
          []
          shop
          (codes "bob")
          (codes "s-2")
          none).1.state
      ≡ some 3)
    × (GoMap.get
          (codes "user:rate")
          (create_session
            (append_event opened visit said).0
            20
            []
            shop
            ann
            (codes "s-2")
            none).1.state
        ≡ some 50)
unfolding GoMap.get GoMap.set create_session store stored
create_session-append_event_example =
    create_session-append_event opened visit said (new_session shop ann first_id none 10)
      (codes "rate") 20 [] (codes "bob") (codes "s-2") opened-IsTidy
      (refl, (refl, (refl, (refl, tt)))) refl
