-- ===== src/Executor/Tracks.antt =====
-- What a context of code execution (codeexecutor/context.go) can come to hold.
use adk_go.Executor.Context.{
  Context, Value, Status, returns, panics, blocks, CodeExecutionResult, input_file_key,
  error_count_key, code_execution_results_key, set_execution_id, add_processed_file_names,
  add_input_files, clear_input_files, increment_error_count, reset_error_count,
  update_execution_result, add_execution_result, processed_file_names_key, names_in,
}
use adk_go.GoMap
use adk_go.GoMap.Laws.{get-set}
use adk_go.Base.{
  refl, Bool, List, Text, ◌≡◌, Option, false, none, true, ◌==◌, arith, some, text_comparable, ◌∷◌,
  [], Bool-cases, ◌≢◌, inl, inr, Option-cases, any, ◌⊎◌, ◌++◌,
}
use adk_go.GoMap.{GoMap}

-- A call of a method that writes.
pub data Call (F : Type 0) : Type 0 where
  sets_id : Text → Call F
  adds_names : List Text → Call F
  adds_files : List F → Call F
  clears_files : Call F
  increments resets : Text → Call F
  adds_result : Text → CodeExecutionResult → Call F

-- The calls that record an input file, an error or a result.
abbrev pub is_record : {F : Type 0} → Call F → Bool
is_record (adds_files fs) = true
is_record (increments id) = true
is_record (adds_result id r) = true
is_record _ = false

Status-cases : (s : Status) → (s ≡ returns) ⊎ ((s ≡ panics) ⊎ (s ≡ blocks))
Status-cases returns = inl refl
Status-cases panics = inr (inl refl)
Status-cases blocks = inr (inr refl)

module _ {F V : Type 0} where
  unfoldable pub call : Call F → Context F V → Context F V × Status
  unfolding set_execution_id add_processed_file_names add_input_files clear_input_files
      increment_error_count reset_error_count add_execution_result
  call (sets_id id) c = (set_execution_id id c, returns)
  call (adds_names ns) c = add_processed_file_names ns c
  call (adds_files fs) c = add_input_files fs c
  call clears_files c = (clear_input_files c, returns)
  call (increments id) c = increment_error_count id c
  call (resets id) c = reset_error_count id c
  call (adds_result id r) c = add_execution_result id r c

  -- The calls, if each of them returns.
  unfoldable pub call_all : List (Call F) → Context F V → Option (Context F V)
  unfolding call
  call_all [] c = some c
  call_all (k ∷ ks) c =
      let rest = call_all ks (call k c).0 in
      elim (call k c).1 [ returns ↦ rest | panics ↦ none | blocks ↦ none ]

  -- No input file, error count or result is there.
  pub record HasNoRecord (c : Context F V) : Type 0 where
    pub no_files : GoMap.get input_file_key c ≡ none
    pub no_counts : GoMap.get error_count_key c ≡ none
    pub no_results : GoMap.get code_execution_results_key c ≡ none

  put-HasNoRecord :
      (key : Text) (v : Value F V) (c : Context F V)
      → (key == input_file_key) ≡ false
      → (key == error_count_key) ≡ false
      → (key == code_execution_results_key) ≡ false
      → HasNoRecord c
      → HasNoRecord (GoMap.set key v c)
  put-HasNoRecord key v c f e r h = record {
    no_files = ground (arith, get-set key input_file_key v c, f, h.no_files);
    no_counts = ground (arith, get-set key error_count_key v c, e, h.no_counts);
    no_results = ground (arith, get-set key code_execution_results_key v c, r, h.no_results);
  }

  names-HasNoRecord :
      (ns : List Text) (c : Context F V)
      → HasNoRecord c
      → HasNoRecord (add_processed_file_names ns c).0
  unfolding add_processed_file_names
  names-HasNoRecord ns c h = elim (Option-cases (names_in (GoMap.get processed_file_names_key c))) [
    | inl wrong ↦ rw (add_processed_file_names, wrong) h
    | inr (old, there) ↦
        rw (add_processed_file_names, there)
          (put-HasNoRecord _ (Value.names (old ++ ns)) c refl refl refl h)
  ]

  reset-HasNoRecord :
      (id : Text) (c : Context F V) → HasNoRecord c → HasNoRecord (reset_error_count id c).0
  unfolding reset_error_count
  reset-HasNoRecord id c h = rw (reset_error_count, h.no_counts) h

  add_execution_result-fails :
      (id : Text) (r : CodeExecutionResult) (c : Context F V)
      → HasNoRecord c
      → (add_execution_result id r c).1 ≢ returns
  unfolding add_execution_result update_execution_result
  add_execution_result-fails id r c h e = ground (arith, h.no_results)

  clear-HasNoRecord : (c : Context F V) → HasNoRecord c → HasNoRecord (clear_input_files c)
  unfolding clear_input_files
  clear-HasNoRecord c h =
      rw (h.no_files) (elim (Bool-cases (GoMap.has processed_file_names_key c)) [
        | inl there ↦ rw there (put-HasNoRecord _ _ c refl refl refl h)
        | inr missing ↦ rw missing h
      ])

  call-HasNoRecord :
      (k : Call F) (c : Context F V)
      → HasNoRecord c
      → (call k c).1 ≡ returns
      → (is_record k ≡ false) × HasNoRecord (call k c).0
  unfolding call
  call-HasNoRecord (sets_id id) c h e = (refl, put-HasNoRecord _ (Value.text id) c refl refl refl h)
  call-HasNoRecord (adds_names ns) c h e = (refl, names-HasNoRecord ns c h)
  call-HasNoRecord (adds_files fs) c h e = ground (arith, h.no_files)
  call-HasNoRecord clears_files c h e = (refl, clear-HasNoRecord c h)
  call-HasNoRecord (increments id) c h e = ground (arith, h.no_counts)
  call-HasNoRecord (resets id) c h e = (refl, reset-HasNoRecord id c h)
  call-HasNoRecord (adds_result id r) c h e = absurd (add_execution_result-fails id r c h e)

  -- From a context without input files, error counts and results: in no sequence of calls that all
  -- return is there a call that records an input file, an error or a result.
  pub tracks_nothing :
      (ks : List (Call F)) (c after : Context F V)
      → HasNoRecord c
      → call_all ks c ≡ some after
      → any is_record ks ≡ false
  unfolding call_all
  tracks_nothing [] c after h e = refl
  tracks_nothing (k ∷ ks) c after h e = elim (Status-cases (call k c).1) [
    | inl done ↦
        let (no_record, h') = call-HasNoRecord k c h done in
        ground (arith, no_record, done, tracks_nothing ks (call k c).0 after h')
    | inr refused ↦ ground (arith, refused)
  ]
