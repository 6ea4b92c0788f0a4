-- ===== src/Contents/Told.antt =====
-- The contents of a conversation without function calls: all of `getContents`.
use adk_go.GoMap.{GoMap}
use adk_go.Genai.{FunctionCall, FunctionResponse, Part, Content, text_part}
use adk_go.Event.{Event, parts_of}
use adk_go.Contents.{
  foreign_part, is_kept, is_other_agent_reply, is_auth_event, is_event_belongs_to_branch,
  get_contents,
}
use adk_go.Contents.Talk.{NoFunctions, IsTalk, heard, heard_all, get_contents-heard}
use adk_go.Base.{
  not, ◌&&◌, ◌||◌, text_eq, has_prefix, ◌∙◌, Text, List, Option, map, ◌≡◌, All, ok, none, some, [],
  ◌∷◌, ◌++◌, ℕ, if◌then◌else◌, Outcome, arith, codes, true, refl, ap, Bool, false,
}

abbrev pub is_some_text : Text → Bool
is_some_text [] = false
is_some_text (c ∷ t) = true

-- The branch of the event is empty or the branch of the request begins with it, unless that is empty.
abbrev pub is_on : Text → Text → Bool
is_on [] event_branch = true
is_on (c ∷ branch) event_branch = has_prefix (c ∷ branch) event_branch

-- Somebody else than the user and the one that the branch is taken for.
abbrev pub is_foreign : Text → Text → Bool
is_foreign [] author = false
is_foreign (c ∷ branch) author =
    not (text_eq author (c ∷ branch)) && not (text_eq author (codes "user"))

not-text_eq : (t : Text) → not (text_eq t []) ≡ is_some_text t
not-text_eq [] = refl
not-text_eq (c ∷ t) = refl

on-is_on :
    (branch event_branch : Text)
    → (if text_eq branch [] || text_eq event_branch []
        then true
        else has_prefix branch event_branch)
      ≡ is_on branch event_branch
on-is_on [] event_branch = refl
on-is_on (c ∷ branch) [] = refl
on-is_on (c ∷ branch) (d ∷ event_branch) = refl

and_true : (b : Bool) → b && not false ≡ b
and_true true = refl
and_true false = refl

module _ {V : Type 0} where
  -- The event has a role, a text first, and a branch for this request.
  abbrev pub is_heard : Text → Text → Content V → Bool
  is_heard branch event_branch c = elim c.parts [
    | [] ↦ false
    | p ∷ ps ↦ is_some_text c.role && is_some_text p.text && is_on branch event_branch
  ]

  -- A text in the words of the user.
  abbrev pub retold : Text → Part V → Part V
  retold author p =
      if is_some_text p.text
      then text_part ((codes "[" ++ author) ++ (codes "] said: " ++ p.text))
      else p

  abbrev pub passed_on : Text → Event V → Content V → Content V
  passed_on branch e c =
      if is_foreign branch e.author
      then record {
        role = codes "user";
        parts = text_part (codes "For context:") ∷ map (retold e.author) c.parts;
      }
      else c

  -- The contents that are told of events.
  abbrev told_of : Text → Event V → Option (Content V) → List (Content V)
  told_of branch e none = []
  told_of branch e (some c) = if is_heard branch e.branch c then passed_on branch e c ∷ [] else []

  abbrev pub told : Text → (es : List (Event V)) → All IsTalk es → List (Content V)
  told branch [] _ = []
  told branch (e ∷ es) ((o, _, _), rest) = told_of branch e o ++ told branch es rest

  is_auth_event-nothing : (ps : List (Part V)) → NoFunctions ps → is_auth_event ps ≡ false
  unfolding is_auth_event
  is_auth_event-nothing [] _ = refl
  is_auth_event-nothing (p ∷ ps) ((call, response), rest) =
      ground (arith, call, response, is_auth_event-nothing ps rest)

  is_kept-by :
      (branch : Text) (e : Event V) (role : Text) (parts : List (Part V))
      → NoFunctions parts
      → is_kept branch e (some (record { role = role; parts = parts }))
        ≡ is_heard branch e.branch (record { role = role; parts = parts })
  unfolding is_kept is_event_belongs_to_branch
  is_kept-by branch e role [] plain = refl
  is_kept-by branch e role (p ∷ ps) plain =
      rw
        (
          is_auth_event-nothing (p ∷ ps) plain,
          not-text_eq role,
          not-text_eq p.text,
          on-is_on branch e.branch,
          and_true (is_some_text role && is_some_text p.text && is_on branch e.branch),
        )
        refl

  is_kept-is_heard :
      (branch : Text) (e : Event V) (c : Content V)
      → NoFunctions c.parts
      → is_kept branch e (some c) ≡ is_heard branch e.branch c
  unfolding is_kept is_event_belongs_to_branch
  is_kept-is_heard branch e c plain = is_kept-by branch e c.role c.parts plain

  is_other_agent_reply-is_foreign :
      (branch : Text) (e : Event V) → is_other_agent_reply branch e ≡ is_foreign branch e.author
  unfolding is_other_agent_reply
  is_other_agent_reply-is_foreign [] e = refl
  is_other_agent_reply-is_foreign (c ∷ branch) e = refl

  part-retold :
      (show : GoMap Text V → Text) (author text : Text) (thought : Bool)
      (call : Option (FunctionCall V)) (response : Option (FunctionResponse V))
      (result payload : Option V)
      → call ≡ none
      → response ≡ none
      → let p : Part V = record {
        text = text;
        thought = thought;
        function_call = call;
        function_response = response;
        code_execution_result = result;
        payload = payload;
      } in
        foreign_part show author p ≡ retold author p
  unfolding foreign_part
  part-retold show author (c ∷ t) thought call response result payload none_called none_answered =
      refl
  part-retold show author [] thought none none result payload none_called none_answered = refl
  part-retold show author [] thought none (some r) result payload none_called none_answered =
      absurd (cc)
  part-retold show author [] thought (some c) response result payload none_called none_answered =
      absurd (cc)

  foreign_part-retold :
      (show : GoMap Text V → Text) (author : Text) (ps : List (Part V))
      → NoFunctions ps
      → map (foreign_part show author) ps ≡ map (retold author) ps
  unfolding foreign_part
  foreign_part-retold show author [] _ = refl
  foreign_part-retold show author (p ∷ ps) ((call, response), rest) =
      let one =
        part-retold show author p.text p.thought p.function_call p.function_response
          p.code_execution_result p.payload call response in
      cc (one, foreign_part-retold show author ps rest)

  module _ (show : GoMap Text V → Text) (event_ids : ℕ → Text) (branch : Text) where
    heard-told :
        (e : Event V) (o : Option (Content V))
        → NoFunctions (parts_of o)
        → heard show event_ids branch e o ≡ told_of branch e o
    heard-told e none plain = refl
    heard-told e (some c) plain =
        rw
          (
            is_kept-is_heard branch e c plain,
            is_other_agent_reply-is_foreign branch e,
            foreign_part-retold show e.author c.parts plain,
          )
          refl

    heard_all-told :
        (es : List (Event V)) (h : All IsTalk es)
        → heard_all show event_ids branch es h ≡ told branch es h
    heard_all-told [] _ = refl
    heard_all-told (e ∷ es) ((o, there, plain), rest) =
        rw (heard-told e o plain, heard_all-told es rest) refl

    module _ (copy_nil : Outcome (Content V)) (visit : List (Event V) → List (Event V)) where
      -- Where every event has a response of the model and none has a function call or a function
      -- response, `getContents` never fails. In order, it makes one content for each event that has a
      -- role, a text in its first part, and a branch that is empty or that the branch of the request,
      -- unless that is empty, begins with. It is the content of the event; but where the branch of the
      -- request is not empty and the author is neither `user` nor that branch, it is a content of the
      -- role `user` that begins with the text `For context:` and has each text of the event behind the
      -- name of its author, and each part without a text as it is.
      pub get_contents_lem :
          (es : List (Event V)) (h : All IsTalk es)
          → get_contents show copy_nil visit event_ids branch es ≡ ok (told branch es h)
      get_contents_lem es h =
          get_contents-heard show event_ids branch copy_nil visit es h ∙ ap ok (heard_all-told es h)
