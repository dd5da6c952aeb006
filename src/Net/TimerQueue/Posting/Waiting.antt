-- ===== src/Net/TimerQueue/Posting/Waiting.antt =====
-- net/timer_queue.cpp: timers that were made and wait as tasks to be added to the sets.
use my_net_core_proxy.Prelude.{ℕ, ◌+◌, ◌≡◌, refl, ap, none, some, List, [], ◌∷◌, ◌++◌}
use my_net_core_proxy.Net.Timer
use my_net_core_proxy.Net.Timer.{Timer, TimerId}
use my_net_core_proxy.Net.Timestamp.{Seconds}
use my_net_core_proxy.Net.TimerQueue.{TimerQueue, Entry, new_timer}
use my_net_core_proxy.Net.TimerQueue.Invariant.{Inv}
use my_net_core_proxy.Net.TimerQueue.Ownership.{touched, touched_self, made-Inv}
use my_net_core_proxy.Net.TimerQueue.Posting.{TimerTask, adds, cancels}
use my_net_core_proxy.Net.TimerQueue.Steps.{unaffected}

-- The timers that wait to be added, by their addresses.
unfoldable pub outs : List TimerTask → List Entry
outs [] = []
outs (adds p ∷ tasks) = (0, p) ∷ outs tasks
outs (cancels id ∷ tasks) = outs tasks

pub outs-append : (xs ys : List TimerTask) → outs (xs ++ ys) ≡ outs xs ++ outs ys
unfolding outs
outs-append [] ys = refl
outs-append (adds p ∷ xs) ys = ap (λ l. (0, p) ∷ l) (outs-append xs ys)
outs-append (cancels id ∷ xs) ys = outs-append xs ys

module _ {F : Type 0} where
  -- What the timer's allocation does.
  pub allocated-Inv :
      (p : ℕ) (cb : F) (when : ℕ) (interval : Seconds) (q : TimerQueue F) (out : List Entry)
      → Inv q out
      → q.heap p ≡ none
      → (t : Timer F) × Inv (new_timer p cb when interval q) ((0, p) ∷ out)
        × ((new_timer p cb when interval q).heap p ≡ some t)
  unfolding new_timer touched
  allocated-Inv p cb when interval q out v free =
      let t : Timer F = Timer.new q.num_created cb when interval in
      (
        t,
        unaffected (touched q p (some t)) ((0, p) ∷ out) q.calling_expired_timers q.canceling_timers
            (q.num_created + 1) q.alarm (made-Inv q out 0 p t v free),
        touched_self q p (some t),
      )
