-- ===== src/Queue/Live.antt =====
-- types/agent_live_request_queue.go: a queue of at most 100 requests whose senders do not look at the
-- error of `PutNowait`. A genai blob is a value of the parameter `V`.

use adk_go.Genai.{Content}
use adk_go.Queue.{Queue, new_queue, put_nowait}
use adk_go.Base.{
  List, Option, none, pos, ℕ, Bool, false, true, ◌∷◌, ◌≡◌, [], suc, if◌then◌else◌, ltb, length,
  ◌++◌, arith, take, ◌≤◌, append-nil, refl, sym, take_all, Bool-cases, inl, length-concat, ltb→lt,
  ◌∙◌, append_assoc, inr, take-append_full,
}

pub record LiveRequest (V : Type 0) : Type 0 where
  pub content : Option (Content V)
  pub blob : Option V
  pub close : Bool

-- `LiveRequestQueue`; requests are passed by pointer and not written afterwards.
abbrev LiveQueue : Type 0 → Type 0
LiveQueue V = Queue (LiveRequest V)

module _ {V : Type 0} where
  -- `NewLiveRequestQueue()`
  unfoldable pub new_live_queue : LiveQueue V
  unfolding new_queue
  new_live_queue = new_queue (pos 100)

  -- `q.Send(req)`: the error is dropped.
  unfoldable send : LiveQueue V → LiveRequest V → LiveQueue V
  unfolding put_nowait
  send q req = (put_nowait q req).0

  -- `q.Close()`
  unfoldable send_close : LiveQueue V → LiveQueue V
  unfolding put_nowait
  send_close q = (put_nowait q (record { content = none; blob = none; close = true })).0

  -- `q.SendContent(content)`
  unfoldable send_content : LiveQueue V → Option (Content V) → LiveQueue V
  unfolding put_nowait
  send_content q c = (put_nowait q (record { content = c; blob = none; close = false })).0

  -- `q.SendRealtime(blob)`
  unfoldable send_realtime : LiveQueue V → Option V → LiveQueue V
  unfolding put_nowait
  send_realtime q b = (put_nowait q (record { content = none; blob = b; close = false })).0

  -- Senders that call one after the other.
  unfoldable pub send_all : LiveQueue V → List (LiveRequest V) → LiveQueue V
  unfolding send
  send_all q [] = q
  send_all q (r ∷ rs) = send_all (send q r) rs

  send-items :
      (q : LiveQueue V) (r : LiveRequest V) (n : ℕ)
      → q.maxsize ≡ pos (suc n)
      → q.closed ≡ false
      → ((send q r).items ≡ (if ltb (length q.items) (suc n) then q.items ++ r ∷ [] else q.items))
        × ((send q r).maxsize ≡ pos (suc n))
        × ((send q r).closed ≡ false)
  unfolding send put_nowait
  send-items q r n m c = (ground arith, ground arith, ground arith)

  send_all-items :
      (n : ℕ) (q : LiveQueue V) (rs : List (LiveRequest V))
      → q.maxsize ≡ pos (suc n)
      → q.closed ≡ false
      → length q.items ≤ suc n
      → (send_all q rs).items ≡ take (suc n) (q.items ++ rs)
  unfolding send_all
  send_all-items n q [] m c h = rw append-nil (sym (take_all (suc n) q.items h))
  send_all-items n q (r ∷ rs) m c h =
      let (kept, m', c') = send-items q r n m c in
      elim (Bool-cases (ltb (length q.items) (suc n))) [
        | inl room ↦
            let now : (send q r).items ≡ q.items ++ r ∷ [] = ground (arith, kept) in
            send_all-items n (send q r) rs m' c' (
              rw (now, length-concat q.items r)
                (omega (arith, ltb→lt (length q.items) (suc n) room)))
            ∙ rw (now, append_assoc q.items (r ∷ []) rs)
        | inr full ↦
            let now : (send q r).items ≡ q.items = ground (arith, kept) in
            let size : length q.items ≡ suc n = ground arith in
            send_all-items n (send q r) rs m' c' (rw now h)
            ∙ rw (now, ← size, take-append_full q.items rs)
                (sym (take-append_full q.items (r ∷ rs)))
      ]

  -- Of the requests that are sent to a new live queue while nobody reads, the queue holds the first
  -- hundred, in order; the others are dropped and no sender is told, a close request among them.
  pub send_all-new : (rs : List (LiveRequest V)) → (send_all new_live_queue rs).items ≡ take 100 rs
  send_all-new rs =
      unfold new_live_queue in send_all-items 99 new_live_queue rs refl refl (omega arith)
