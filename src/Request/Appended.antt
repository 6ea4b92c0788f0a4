-- ===== src/Request/Appended.antt =====
-- What a request holds behind `AppendTools` (types/model_llm_request.go).
use adk_go.GoMap
use adk_go.GoMap.{GoMap}
use adk_go.GoMap.Laws.{get-set}
use adk_go.Request.{RequestTool, LlmRequest, add_to_map, append_tools, config_of, empty_request}
use adk_go.Base.{
  Text, Bool, true, Option, none, some, List, [], ◌∷◌, ◌++◌, map, ok, panic, ◌≡◌, refl, ◌==◌,
  or_else, if◌then◌else◌, text_comparable, false,
}

-- The last tool of this name.
abbrev pub last_named : {T D : Type 0} → Text → List (RequestTool T D) → Option T
last_named k [] = none
last_named k (t ∷ ts) = or_else (last_named k ts) (if t.name == k then some t.tool else none)

or_else_assoc : {T : Type 0} (o p q : Option T) → or_else (or_else o p) q ≡ or_else o (or_else p q)
or_else_assoc none p q = refl
or_else_assoc (some x) p q = refl

or_else-if :
    {T : Type 0} (b : Bool) (x : T) (o : Option T)
    → (if b then some x else o) ≡ or_else (if b then some x else none) o
or_else-if true x o = refl
or_else-if false x o = refl

add_to_map-reads :
    {T D : Type 0} (ts : List (RequestTool T D)) (m : GoMap Text T)
    → (n : GoMap Text T) × (add_to_map ts (some m) ≡ ok (some n))
      × ((k : Text) → GoMap.get k n ≡ or_else (last_named k ts) (GoMap.get k m))
unfolding add_to_map
add_to_map-reads [] m = (m, refl, λ k. refl)
add_to_map-reads (t ∷ ts) m =
    let (n, made, reads) = add_to_map-reads ts (GoMap.set t.name t.tool m) in
    (
      n,
      made,
      λ k.
          rw
            (
              reads k,
              get-set t.name k t.tool m,
              or_else-if (t.name == k) t.tool (GoMap.get k m),
              or_else_assoc (last_named k ts) (if t.name == k then some t.tool else none)
                  (GoMap.get k m),
            )
            refl,
    )

module _ {V T D S C L : Type 0} where
  -- On a request whose map of tools was made, `AppendTools` does not panic. A name then reads the last
  -- of the new tools with that name, or what it read before; the tools of the configuration are those
  -- it had and one more, with the declarations of all new tools in their order; and the model, the
  -- contents, the system instruction and the output schema are the same.
  pub append_tools-told :
      (tools : List (RequestTool T D)) (r : LlmRequest V T D S C L) (m : GoMap Text T)
      → r.tool_map ≡ some m
      → (q : LlmRequest V T D S C L) × (append_tools tools r ≡ ok q)
        × ((n : GoMap Text T) × (q.tool_map ≡ some n)
            × ((k : Text) → GoMap.get k n ≡ or_else (last_named k tools) (GoMap.get k m)))
        × ((config_of q).tools ≡ (config_of r).tools ++ map (λ t. t.declaration) tools ∷ [])
        × (q.model ≡ r.model)
        × (q.contents ≡ r.contents)
        × ((config_of q).system_instruction ≡ (config_of r).system_instruction)
        × ((config_of q).response_schema ≡ (config_of r).response_schema)
  unfolding append_tools
  append_tools-told tools r m made =
      let (n, there, reads) = add_to_map-reads tools m in
      let c = config_of r in
      (
        record r {
          config = some (record c { tools = c.tools ++ map (λ t. t.declaration) tools ∷ [] });
          tool_map = some n;
        },
        rw (made, there) refl,
        (n, refl, reads),
        refl,
        refl,
        refl,
        refl,
        refl,
      )

  -- On the request that a flow makes it panics, whatever the tools, if there is one.
  append_tools-empty :
      (t : RequestTool T D) (ts : List (RequestTool T D))
      → append_tools (t ∷ ts) (empty_request {V = V} {S = S} {C = C} {L = L}) ≡ panic
  unfolding append_tools add_to_map
  append_tools-empty t ts = refl
