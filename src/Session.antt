-- ===== src/Session.antt =====
-- session/session.go: the plain session object. A time is a number, and the state map has values of
-- the parameter `V`. The stored events are shared pointers that nothing here writes through.
use adk_go.Base.{ℕ, ◌-◌, ◌||◌, List, [], ◌++◌, Option, Text, leb, ltb, if◌then◌else◌, length, drop}
use adk_go.GoMap.{GoMap}
use adk_go.State.{or_empty}
use adk_go.Event.{Event}

pub record Session (V : Type 0) : Type 0 where
  pub id : Text
  pub app_name : Text
  pub user_id : Text
  pub events : List (Event V)
  pub state : GoMap Text V
  pub last_update_time : ℕ

module _ {V : Type 0} where
  -- `NewSession(appName, userID, id, state, lastUpdateTime)`: a nil state is replaced.
  unfoldable pub new_session : Text → Text → Text → Option (GoMap Text V) → ℕ → Session V
  new_session app user id state time = record {
    id = id;
    app_name = app;
    user_id = user;
    events = [];
    state = or_empty state;
    last_update_time = time;
  }

  -- `s.SetLastUpdateTime(t)`
  unfoldable pub set_last_update_time : Session V → ℕ → Session V
  set_last_update_time s t = record s { last_update_time = t }

  -- `s.AddEvent(events...)`
  unfoldable pub add_event : Session V → List (Event V) → Session V
  add_event s events = record s { events = s.events ++ events }

  -- `s.GetRecentEvents(n)`, for an `n` that is not negative.
  unfoldable pub get_recent_events : Session V → ℕ → List (Event V)
  get_recent_events s n =
      if leb n 0 || ltb (length s.events) n then s.events else drop (length s.events - n) s.events
