-- ===== src/Planner/Split.antt =====
-- Which function calls and texts the planner preserves, and how it labels them.
use adk_go.Genai.{Part, FunctionCall, text_part}
use adk_go.Event.{calls_of}
use adk_go.Planner.{
  split_last, split_parts, handle_non_function_call_parts, first_call, add_calls,
  process_planning_response, final_answer_tag,
}
use adk_go.Base.{
  Text, List, Bool, ◌≡◌, none, some, [], ◌∷◌, ◌++◌, true, false, arith, text_eq, if◌then◌else◌,
  keep, is_some, refl, ℕ, drop, suc, length, has_prefix-append, Bool-cases, ltb, ◌∙◌, append-nil,
  inl, not, inr, sym, Option-cases, length-concat, ap, append_assoc,
}

split_last-append :
    (c : ℕ) (tag b a : Text)
    → split_last (c ∷ tag) (tag ++ a) ≡ none
    → split_last (c ∷ tag) (b ++ c ∷ (tag ++ a)) ≡ some (b, c ∷ (tag ++ a))
unfolding split_last
split_last-append c tag [] a h = ground (arith, h, has_prefix-append tag a)
split_last-append c tag (d ∷ b) a h = rw (split_last-append c tag b a h)

text_eq-append : (b : Text) (c : ℕ) (t : Text) → text_eq (b ++ c ∷ t) [] ≡ false
text_eq-append [] c t = refl
text_eq-append (d ∷ b) c t = refl

module _ {V : Type 0} where
  calls_of-append : (ps qs : List (Part V)) → calls_of (ps ++ qs) ≡ calls_of ps ++ calls_of qs
  unfolding calls_of
  calls_of-append [] qs = refl
  calls_of-append (p ∷ ps) qs = ground (arith, calls_of-append ps qs)

  calls_of-keep :
      (ps : List (Part V)) → calls_of (keep (λ p. is_some p.function_call) ps) ≡ calls_of ps
  unfolding calls_of
  calls_of-keep [] = refl
  calls_of-keep (p ∷ ps) = ground (arith, calls_of-keep ps)

  calls_of-split_parts : (b f : Text) → calls_of (split_parts {V = V} (b, f)) ≡ []
  unfolding split_parts calls_of
  calls_of-split_parts b f = ground arith

  calls_of-labelled :
      (p : Part V) (thought : Bool) (preserved : List (Part V))
      → p.function_call ≡ none
      → calls_of (preserved ++ record p { thought = thought } ∷ []) ≡ calls_of preserved
  unfolding calls_of
  calls_of-labelled p thought preserved h =
      calls_of-append preserved (record p { thought = thought } ∷ [])
      ∙ rw (h, calls_of) (append-nil (calls_of preserved))

  calls_of-handle :
      (p : Part V) (preserved : List (Part V))
      → p.function_call ≡ none
      → calls_of (handle_non_function_call_parts p preserved) ≡ calls_of preserved
  unfolding handle_non_function_call_parts
  calls_of-handle p preserved h = elim (Bool-cases (text_eq p.text [])) [
    | inl missing ↦ rw (missing, handle_non_function_call_parts) (calls_of-labelled p _ preserved h)
    | inr there ↦ elim (Option-cases (split_last final_answer_tag p.text)) [
      | inl whole ↦
          rw (there, whole, handle_non_function_call_parts) (calls_of-labelled p _ preserved h)
      | inr ((before, from), parted) ↦
          rw (there, parted, handle_non_function_call_parts)
            (calls_of-append preserved (split_parts (before, from))
              ∙ rw (calls_of-split_parts before from) (append-nil (calls_of preserved)))
    ]
  ]

  -- The calls that are kept: the first one with a name, and all after it unless it begins the
  -- response.
  abbrev kept_calls : Bool → List (Part V) → List (FunctionCall V)
  kept_calls first [] = []
  kept_calls first (p ∷ ps) =
      let rest = kept_calls false ps in
      elim p.function_call [
        | none ↦ rest
        | some c ↦ if text_eq c.name [] then rest else (c ∷ (if first then [] else calls_of ps))
      ]

  drop_past :
      (pre : List (Part V)) (p : Part V) (ps : List (Part V))
      → drop (suc (length pre)) (pre ++ p ∷ ps) ≡ ps
  drop_past [] p ps = refl
  drop_past (q ∷ pre) p ps = drop_past pre p ps

  calls_of-call :
      (p : Part V) (c : FunctionCall V) → p.function_call ≡ some c → calls_of (p ∷ []) ≡ c ∷ []
  unfolding calls_of
  calls_of-call p c h = ground (arith, h)

  calls_of-named :
      (pre ps acc : List (Part V)) (p : Part V) (c : FunctionCall V) (first : Bool)
      → p.function_call ≡ some c
      → ltb 0 (length pre) ≡ not first
      → calls_of (add_calls (pre ++ p ∷ ps) (acc ++ p ∷ [], some (length pre)))
        ≡ calls_of acc ++ c ∷ (if first then [] else calls_of ps)
  unfolding add_calls
  calls_of-named pre ps acc p c true h at_start =
      rw at_start (rw (calls_of-append acc (p ∷ []), calls_of-call p c h))
  calls_of-named pre ps acc p c false h at_start =
      rw (at_start, drop_past pre p ps)
        (rw
          (
            calls_of-append (acc ++ p ∷ []) (keep (λ p. is_some p.function_call) ps),
            calls_of-append acc (p ∷ []),
            calls_of-call p c h,
            calls_of-keep ps,
          )
          (append_assoc (calls_of acc) (c ∷ []) (calls_of ps)))

  -- The first loop and the calls kept, on a part without a call, with an unnamed one, and a named one.
  first_call-none :
      (i : ℕ) (acc ps : List (Part V)) (p : Part V) (first : Bool)
      → p.function_call ≡ none
      → (first_call i acc (p ∷ ps) ≡ first_call (suc i) (handle_non_function_call_parts p acc) ps)
        × (kept_calls first (p ∷ ps) ≡ kept_calls false ps)
  unfolding first_call
  first_call-none i acc ps p first h = (ground (arith, h), ground (arith, h))

  first_call-unnamed :
      (i : ℕ) (acc ps : List (Part V)) (p : Part V) (c : FunctionCall V) (first : Bool)
      → p.function_call ≡ some c
      → text_eq c.name [] ≡ true
      → (first_call i acc (p ∷ ps) ≡ first_call (suc i) acc ps)
        × (kept_calls first (p ∷ ps) ≡ kept_calls false ps)
  unfolding first_call
  first_call-unnamed i acc ps p c first h unnamed =
      (ground (arith, h, unnamed), ground (arith, h, unnamed))

  first_call-named :
      (i : ℕ) (acc ps : List (Part V)) (p : Part V) (c : FunctionCall V) (first : Bool)
      → p.function_call ≡ some c
      → text_eq c.name [] ≡ false
      → (first_call i acc (p ∷ ps) ≡ (acc ++ p ∷ [], some i))
        × (kept_calls first (p ∷ ps) ≡ c ∷ (if first then [] else calls_of ps))
  unfolding first_call
  first_call-named i acc ps p c first h named = (ground (arith, h, named), ground (arith, h, named))

  calls_of-add_calls :
      (ps pre acc : List (Part V)) (i : ℕ) (first : Bool)
      → i ≡ length pre
      → ltb 0 i ≡ not first
      → calls_of (add_calls (pre ++ ps) (first_call i acc ps)) ≡ calls_of acc ++ kept_calls first ps
  unfolding first_call add_calls
  calls_of-add_calls [] pre acc i first e at_start = sym (append-nil (calls_of acc))
  calls_of-add_calls (p ∷ ps) pre acc i first e at_start =
      let next : suc i ≡ length (pre ++ p ∷ []) = rw (length-concat pre p) (ap suc e) in
      let later : ltb 0 (suc i) ≡ not false = ground arith in
      let skipped = calls_of-add_calls ps (pre ++ p ∷ []) acc (suc i) false next later in
      let handled =
        calls_of-add_calls ps (pre ++ p ∷ []) (handle_non_function_call_parts p acc) (suc i) false
          next later in
      elim (Option-cases p.function_call) [
        | inl no_call ↦
            let (looped, same) = first_call-none i acc ps p first no_call in
            rw (looped, same)
              (rw (append_assoc pre (p ∷ []) ps, calls_of-handle p acc no_call) at handled)
        | inr (c, call) ↦ elim (Bool-cases (text_eq c.name [])) [
          | inl unnamed ↦
              let (looped, same) = first_call-unnamed i acc ps p c first call unnamed in
              rw (looped, same) (rw (append_assoc pre (p ∷ []) ps) at skipped)
          | inr named ↦
              let (looped, same) = first_call-named i acc ps p c first call named in
              rw (looped, same, e) (calls_of-named pre ps acc p c first call (rw e at at_start))
        ]
      ]

  -- The function calls that the planner preserves are the first one with a name and every one after
  -- it, in order; but of a response that begins with a named call only that call.
  pub process_planning_response_lem :
      (parts : List (Part V)) → calls_of (process_planning_response parts) ≡ kept_calls true parts
  unfolding process_planning_response calls_of
  process_planning_response_lem parts = calls_of-add_calls parts [] [] 0 true refl (ground arith)

  handle-split_last :
      (t b f : Text) (preserved : List (Part V))
      → text_eq t [] ≡ false
      → split_last final_answer_tag t ≡ some (b, f)
      → handle_non_function_call_parts (text_part t) preserved ≡ preserved ++ split_parts (b, f)
  unfolding handle_non_function_call_parts
  handle-split_last t b f preserved there parted =
      rw (there, parted, handle_non_function_call_parts)

  -- A text with the final answer tag, which occurs nowhere behind that place, becomes two parts: the
  -- text from the tag on, marked as a thought, and then the text before the tag, if there is one,
  -- not marked.
  pub handle_non_function_call_parts_lem :
      (b a : Text) (preserved : List (Part V))
      → split_last final_answer_tag (drop 1 final_answer_tag ++ a) ≡ none
      → handle_non_function_call_parts (text_part (b ++ (final_answer_tag ++ a))) preserved
        ≡ preserved
          ++ record (text_part (final_answer_tag ++ a)) { thought = true }
            ∷ (if text_eq b [] then [] else text_part b ∷ [])
  unfolding split_parts
  handle_non_function_call_parts_lem b a preserved h =
      handle-split_last (b ++ (final_answer_tag ++ a)) b (final_answer_tag ++ a) preserved
        (text_eq-append b b'/' (drop 1 final_answer_tag ++ a))
        (split_last-append b'/' (drop 1 final_answer_tag) b a h)
