-- ===== src/Net/TimerQueue/Posting/Calls.antt =====
-- net/timer_queue.cpp: addTimer and cancel called by the loop's thread and by others, with the rounds of
-- doPendingFunctors and of handleRead between them.
use my_net_core_proxy.Prelude.{
  ℕ, Bool, true, false, ◌&&◌, ◌||◌, ◌==◌, if◌then◌else◌, none, some, List, [], ◌∷◌, Result, ok,
  dangling, check, ◌>>=◌, ◌>>◌,
}
use my_net_core_proxy.Net.EventLoop.Rounds.{do_pending_functors}
use my_net_core_proxy.Net.Timer.{TimerId}
use my_net_core_proxy.Net.Timestamp.{Seconds}
use my_net_core_proxy.Net.TimerQueue.{TimerQueue, timer_id, handle_read}
use my_net_core_proxy.Net.TimerQueue.Posting.{TimerLoop, run_task, post_timer, add_timer, cancel}

-- addTimer in the loop's thread; addTimer in another thread, up to its return; that return, for a timer by
-- its address and sequence; cancel, in the loop's thread or another one; a round of doPendingFunctors; and
-- handleRead. The loop's thread is outside the queue of tasks at each. The other numbers are the times that
-- the clock shows, an address is the one that `new` gives.
pub data Call (F : Type 0) : Type 0 where
  adds_timer posts_timer : ℕ → ℕ → F → ℕ → Seconds → Call F
  returns_id : ℕ → ℕ → Call F
  cancels_timer : Bool → ℕ → TimerId → Call F
  runs_tasks : ℕ → Call F
  fires : ℕ → ℕ → Call F

-- The loop with its timers, and the timers that other threads have posted and not yet returned.
pub record Calling (St F : Type 0) : Type 0 where
  pub worker : TimerLoop St F
  pub unread : List (ℕ × ℕ)

-- Whether such a timer is among some, and those without it.
unfoldable pub among : ℕ → ℕ → List (ℕ × ℕ) → Bool
among p s [] = false
among p s ((p', s') ∷ xs) = (p == p' && s == s') || among p s xs

unfoldable pub without : ℕ → ℕ → List (ℕ × ℕ) → List (ℕ × ℕ)
without p s [] = []
without p s ((p', s') ∷ xs) =
    let rest = without p s xs in if p == p' && s == s' then rest else (p', s') ∷ rest

module _ {St F : Type 0} where
  abbrev pub by_thread : Bool → TimerLoop St F → TimerLoop St F
  by_thread here w = record w { loop = record w.loop { in_loop_thread = here } }

  -- The return reads the timer that was posted: where another one stands at its address by now, the
  -- pointer dangles too.
  unfoldable pub read_back : ℕ → ℕ → TimerLoop St F → Result (Unit {0})
  unfolding timer_id
  read_back p s w = do id ← timer_id p w.rest; check (id.sequence == s) dangling

module _ {St F : Type 0} (run_callback : F → TimerQueue F → Result (TimerQueue F)) where
  -- `new` gives no address that is in use, and a thread returns once: there are no such steps.
  unfoldable pub step : Call F → Calling St F → Result (Calling St F)
  unfolding read_back among without
  step (adds_timer clock p cb when interval) c = elim (c.worker.rest.heap p) [
    | some t ↦ ok c
    | none ↦ do
      (id, w) ← add_timer clock p cb when interval (by_thread true c.worker)
      ok (record c { worker = w })
  ]
  step (posts_timer clock p cb when interval) c = elim (c.worker.rest.heap p) [
    | some t ↦ ok c
    | none ↦ do
      w ← post_timer clock p cb when interval (by_thread false c.worker)
      ok (record { worker = w; unread = (p, c.worker.rest.num_created) ∷ c.unread })
  ]
  step (returns_id p s) c =
      if among p s c.unread
      then (do read_back p s c.worker; ok (record c { unread = without p s c.unread }))
      else ok c
  step (cancels_timer here clock id) c = do
    w ← cancel clock id (by_thread here c.worker)
    ok (record c { worker = w })
  step (runs_tasks clock) c = do
    w ← do_pending_functors (run_task clock) (λ (e : ℕ) v. ok v) (by_thread true c.worker)
    ok (record c { worker = w })
  step (fires now clock) c = do
    q ← handle_read run_callback now clock c.worker.rest
    ok (record c { worker = record c.worker { rest = q } })

  unfoldable pub run : List (Call F) → Calling St F → Result (Calling St F)
  unfolding step
  run [] c = ok c
  run (call ∷ calls) c = do c' ← step call c; run calls c'
