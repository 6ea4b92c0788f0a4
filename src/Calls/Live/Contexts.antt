-- ===== src/Calls/Live/Contexts.antt =====
-- Running tools and callbacks that leave the tool's context alone (flow/llmflow/functions.go).
use mathlib.Core.Path.{subst}
use mathlib.Core.Option.{some-injective}
use adk_go.Calls.Live.{before_all, after_all, live_before, live_tool, live_after}
use adk_go.Calls.Streams.{
  Streaming, LiveFrame, process_function_live_helper, start_or_call, stop_streaming,
}
use adk_go.Calls.Tools.{
  Frame, Tool, LlmAgent, Response, AfterCallback, BeforeCallback, call_tool, ToolContext,
}
use adk_go.Base.{
  refl, All, List, Outcome, ◌≡◌, Text, false, ◌∷◌, Outcome-cases, inl, arith, inr, [], ok, none,
  fail, some, ◌∙◌, Bool-cases, panic, ◌==◌, text_comparable,
}
use adk_go.GoMap
use adk_go.GoMap.{GoMap}
use adk_go.Genai.{FunctionCall}

-- The tool and the callbacks leave the context alone: no `WithEventActions`, no `WithFunctionCallID`.
abbrev pub KeepsContext : {W V A : Type 0} → (Frame W V → Frame W V × Outcome A) → Type 0
KeepsContext {W} {V} run = (f : Frame W V) → (run f).0.context ≡ f.context

module _ {W V : Type 0} where
  pub record IsPlainAgent (agent : LlmAgent W V) : Type 0 where
    pub before :
        All
          (λ cb. (t : Tool W V) (args : GoMap Text V) → KeepsContext (cb t args))
          agent.before_tool
    pub after :
        All
          (λ cb.
            (t : Tool W V) (args : GoMap Text V) (r : Response V)
            → KeepsContext (λ f. cb t args f r))
          agent.after_tool

  abbrev pub IsPlainTool : Tool W V → Type 0
  IsPlainTool t = (t.is_long_running ≡ false) × ((args : GoMap Text V) → KeepsContext (t.run args))

  before_all-KeepsContext :
      (cbs : List (BeforeCallback W V)) (t : Tool W V) (args : GoMap Text V) (f : Frame W V)
      (r : Response V)
      → All (λ cb. (t : Tool W V) (args : GoMap Text V) → KeepsContext (cb t args)) cbs
      → (before_all cbs t args f r).0.context ≡ f.context
  unfolding before_all
  before_all-KeepsContext [] t args f r k = refl
  before_all-KeepsContext (cb ∷ cbs) t args f r (k, ks) = elim (Outcome-cases (cb t args f).1) [
    | inl (r', e) ↦
        ground (arith, e, k t args f, before_all-KeepsContext cbs t args (cb t args f).0 r' ks)
    | inr refused ↦ ground (arith, refused, k t args f)
  ]

  after_all-KeepsContext :
      (cbs : List (AfterCallback W V)) (t : Tool W V) (args : GoMap Text V) (f : Frame W V)
      (r : Response V)
      → All
          (λ cb.
            (t : Tool W V) (args : GoMap Text V) (r : Response V)
            → KeepsContext (λ f. cb t args f r))
          cbs
      → (after_all cbs t args f r).0.context ≡ f.context
  unfolding after_all
  after_all-KeepsContext [] t args f r k = refl
  after_all-KeepsContext (cb ∷ cbs) t args f r (k, ks) = elim (Outcome-cases (cb t args f r).1) [
    | inl (r', e) ↦
        ground (arith, e, k t args r f, after_all-KeepsContext cbs t args (cb t args f r).0 r' ks)
    | inr refused ↦ ground (arith, refused, k t args r f)
  ]

  call_tool-KeepsContext :
      (t : Tool W V) (args : GoMap Text V) (f : Frame W V)
      → IsPlainTool t
      → (call_tool t args f).0.context ≡ f.context
  unfolding call_tool
  call_tool-KeepsContext t args f (_, k) = k args f

  pub All-get :
      (P : Tool W V → Type 0) (tools : GoMap Text (Tool W V)) (name : Text) (t : Tool W V)
      → All (λ e. P e.1) tools
      → GoMap.get name tools ≡ some t
      → P t
  unfolding GoMap.get
  All-get P [] name t k e = cc
  All-get P ((key, u) ∷ tools) name t (k, ks) e = elim (Bool-cases (key == name)) [
    | inl same ↦ subst P (some-injective u t (ground (arith, e, same))) k
    | inr other ↦ All-get P tools name t ks (ground (arith, e, other))
  ]

module _ {W V K : Type 0} (p : Streaming W V K) (agent : LlmAgent W V) where
  abbrev context_after : LiveFrame W V K × Outcome (Response V) → ToolContext V
  context_after r = r.0.frame.context

  process-KeepsContext :
      (t : Tool W V) (call : FunctionCall V) (f : LiveFrame W V K)
      → IsPlainTool t
      → context_after (process_function_live_helper p t call f) ≡ f.frame.context
  unfolding process_function_live_helper start_or_call stop_streaming
  process-KeepsContext t call f k = ground (arith, call_tool-KeepsContext t call.args f.frame k)

  live_before-KeepsContext :
      (t : Tool W V) (call : FunctionCall V) (f : LiveFrame W V K)
      → IsPlainAgent agent
      → context_after (live_before agent t call f) ≡ f.frame.context
  unfolding live_before
  live_before-KeepsContext t call f plain =
      before_all-KeepsContext agent.before_tool t call.args f.frame none plain.before

  live_tool-KeepsContext :
      (t : Tool W V) (call : FunctionCall V) (r : LiveFrame W V K × Outcome (Response V))
      → IsPlainTool t
      → context_after (live_tool p t call r) ≡ context_after r
  unfolding live_tool
  live_tool-KeepsContext t call (f, ok r) k = ground (arith, process-KeepsContext t call f k)
  live_tool-KeepsContext t call (f, fail e) k = refl
  live_tool-KeepsContext t call (f, panic) k = refl

  live_after-KeepsContext :
      (t : Tool W V) (call : FunctionCall V) (r : LiveFrame W V K × Outcome (Response V))
      → IsPlainAgent agent
      → context_after (live_after agent t call r) ≡ context_after r
  unfolding live_after
  live_after-KeepsContext t call (f, ok r) plain =
      after_all-KeepsContext agent.after_tool t call.args f.frame r plain.after
  live_after-KeepsContext t call (f, fail e) plain = refl
  live_after-KeepsContext t call (f, panic) plain = refl

  pub live-KeepsContext :
      (t : Tool W V) (call : FunctionCall V) (f : LiveFrame W V K)
      → IsPlainAgent agent
      → IsPlainTool t
      → context_after (live_after agent t call (live_tool p t call (live_before agent t call f)))
        ≡ f.frame.context
  live-KeepsContext t call f plain k =
      live_after-KeepsContext t call (live_tool p t call (live_before agent t call f)) plain
      ∙ live_tool-KeepsContext t call (live_before agent t call f) k
      ∙ live_before-KeepsContext t call f plain
