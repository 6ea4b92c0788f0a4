-- ===== src/Executor/Context.antt =====
-- codeexecutor/context.go. The context is a map to values of Go's type `any`, whose dynamic types are
-- the constructors of `Value`; a map or a slice in it is shared by reference with nobody else.
use adk_go.State
use adk_go.State.{State, new_state}
use adk_go.GoMap
use adk_go.GoMap.{GoMap}
use adk_go.Base.{
  List, Option, Outcome, Text, [], if◌then◌else◌, none, ◌∷◌, codes, eqb, ok, some, ℕ, length, not,
  panic, text_comparable, ◌++◌, fail,
}

-- The fields of `types.CodeExecutionResult` that are set here.
pub record CodeExecutionResult : Type 0 where
  pub code : Text
  pub stdout : Text
  pub stderr : Text
  pub timestamp : ℕ

-- The dynamic types: `string`, `[]string`, `[]*CodeExecutionFile`, `map[string]int`,
-- `map[string][]*CodeExecutionResult`, `[]*CodeExecutionResult`, `struct{}`, and any other.
pub data Value (F V : Type 0) : Type 0 where
  text : Text → Value F V
  names : List Text → Value F V
  files : List F → Value F V
  counts : GoMap Text ℕ → Value F V
  results : GoMap Text (List CodeExecutionResult) → Value F V
  result_list : List CodeExecutionResult → Value F V
  empty_struct : Value F V
  other : V → Value F V

abbrev pub context_key : Text
context_key = codes "_code_execution_context"

abbrev pub session_id_key : Text
session_id_key = codes "execution_session_id"

abbrev pub processed_file_names_key : Text
processed_file_names_key = codes "processed_input_files"

abbrev pub input_file_key : Text
input_file_key = codes "_code_executor_input_files"

abbrev pub error_count_key : Text
error_count_key = codes "_code_executor_error_counts"

abbrev pub code_execution_results_key : Text
code_execution_results_key = codes "_code_execution_results"

-- How a method that gives nothing back ends: it returns, panics, or waits for the mutex that it holds.
pub data Status : Type 0 where
  returns panics blocks : Status

abbrev pub Context : Type 0 → Type 0 → Type 0
Context F V = GoMap Text (Value F V)

abbrev list_of : Option (List CodeExecutionResult) → List CodeExecutionResult
list_of none = []
list_of (some rs) = rs

module _ {F V : Type 0} where
  -- `getCodeExecutorContext`, with the session state that it leaves.
  unfoldable pub get_code_executor_context : State (Value F V) → State (Value F V) × Context F V
  unfolding State.has State.set State.to_map
  get_code_executor_context s =
      let s' = if State.has s context_key then s else State.set s context_key empty_struct in
      (s', State.to_map s')

  -- `GetStateDelta`; `nest` makes a value of type `any` of a map.
  unfoldable pub get_state_delta : (Context F V → V) → Context F V → Context F V
  get_state_delta nest c = (context_key, other (nest c)) ∷ []

  -- `GetExecutionID`
  unfoldable pub get_execution_id : Context F V → Outcome Text
  get_execution_id c = elim (GoMap.get session_id_key c) [
    | none ↦ ok []
    | some (text id) ↦ ok id
    | some _ ↦ panic
  ]

  -- `SetExecutionID`
  unfoldable pub set_execution_id : Text → Context F V → Context F V
  unfolding GoMap.set
  set_execution_id id c = GoMap.set session_id_key (text id) c

  -- `GetProcessedFileNames`
  unfoldable pub get_processed_file_names : Context F V → Outcome (List Text)
  get_processed_file_names c = elim (GoMap.get processed_file_names_key c) [
    | none ↦ ok []
    | some (names ns) ↦ ok ns
    | some _ ↦ panic
  ]

  -- The type assertion to `[]string`, with an empty slice for a missing key.
  abbrev pub names_in : Option (Value F V) → Option (List Text)
  names_in none = some []
  names_in (some (names ns)) = some ns
  names_in (some _) = none

  -- `AddProcessedFileNames`
  unfoldable pub add_processed_file_names : List Text → Context F V → Context F V × Status
  add_processed_file_names more c = elim (names_in (GoMap.get processed_file_names_key c)) [
    | some ns ↦ (GoMap.set processed_file_names_key (names (ns ++ more)) c, returns)
    | none ↦ (c, panics)
  ]

  -- `GetInputFiles`
  unfoldable pub get_input_files : Context F V → Outcome (List F)
  get_input_files c = elim (GoMap.get input_file_key c) [
    | none ↦ ok []
    | some (files fs) ↦ ok fs
    | some _ ↦ panic
  ]

  -- `AddInputFiles`: what is put for a missing key has the type `[]string`.
  unfoldable pub add_input_files : List F → Context F V → Context F V × Status
  add_input_files more c = elim (GoMap.get input_file_key c) [
    | none ↦ (GoMap.set input_file_key (names []) c, panics)
    | some (files fs) ↦ (GoMap.set input_file_key (files (fs ++ more)) c, returns)
    | some _ ↦ (c, panics)
  ]

  abbrev set_if_there : Text → Value F V → Context F V → Context F V
  set_if_there key v c = if GoMap.has key c then GoMap.set key v c else c

  -- `ClearInputFiles`
  unfoldable pub clear_input_files : Context F V → Context F V
  clear_input_files c =
      set_if_there processed_file_names_key (names []) (set_if_there input_file_key (files []) c)

  -- `GetErrorCount`
  unfoldable pub get_error_count : Text → Context F V → Outcome ℕ
  get_error_count id c = elim (GoMap.get error_count_key c) [
    | none ↦ ok 0
    | some (counts m) ↦ elim (GoMap.get id m) [ some n ↦ ok n | none ↦ ok 0 ]
    | some _ ↦ panic
  ]

  -- `IncrementErrorCount`: the map that is asserted is the one read before a missing one is made, and
  -- `GetErrorCount` is called with the mutex held.
  unfoldable pub increment_error_count : Text → Context F V → Context F V × Status
  increment_error_count id c = elim (GoMap.get error_count_key c) [
    | none ↦ (GoMap.set error_count_key (counts []) c, panics)
    | some (counts m) ↦ (c, blocks)
    | some _ ↦ (c, panics)
  ]

  -- `ResetErrorCount`
  unfoldable pub reset_error_count : Text → Context F V → Context F V × Status
  reset_error_count id c = elim (GoMap.get error_count_key c) [
    | none ↦ (c, returns)
    | some (counts m) ↦ (GoMap.set error_count_key (counts (GoMap.delete id m)) c, returns)
    | some _ ↦ (c, panics)
  ]

  -- `UpdateExecutionResult`: a map is made under the key of the error counts, and the list of one
  -- invocation takes the place of the map of all.
  unfoldable pub update_execution_result :
      Text → CodeExecutionResult → Context F V → Context F V × Status
  update_execution_result id r c = elim (GoMap.get code_execution_results_key c) [
    | none ↦ (GoMap.set error_count_key (results []) c, panics)
    | some (results m) ↦ (
      GoMap.set code_execution_results_key (result_list (list_of (GoMap.get id m) ++ r ∷ [])) c,
      returns,
    )
    | some _ ↦ (c, panics)
  ]

  -- `AddExecutionResult`, on a result that is not nil.
  unfoldable pub add_execution_result :
      (execution_id : Text) → CodeExecutionResult → Context F V → Context F V × Status
  unfolding get_execution_id update_execution_result
  add_execution_result id r c = elim (if eqb (length id) 0 then get_execution_id c else ok id) [
    | ok id' ↦ update_execution_result id' r c
    | fail e ↦ (c, panics)
    | panic ↦ (c, panics)
  ]

  -- `GetContextFromInvocation`, on an invocation with a session: the session's state map afterwards, and
  -- the context.
  unfoldable pub get_context_from_invocation :
      (invocation_id execution_id : Text)
      → GoMap Text (Value F V)
      → GoMap Text (Value F V) × Context F V
  unfolding get_code_executor_context set_execution_id new_state
  get_context_from_invocation invocation_id execution_id session =
      let (s, c) = get_code_executor_context (new_state (some session) none) in
      (
        s.value,
        if not (eqb (length execution_id) 0)
            then set_execution_id execution_id c
            else if not (eqb (length invocation_id) 0)
            then set_execution_id invocation_id c
            else c,
      )
