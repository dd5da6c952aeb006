-- ===== src/Net/TimerQueue/Posting.antt =====
-- net/timer_queue.cpp: addTimer and cancel with the task queue of the loop between a call and its effect.
pub mod Calls
pub mod Waiting
pub mod Kept
pub mod Threads
use my_net_core_proxy.Prelude.{
  ℕ, ◌+◌, ◌≡◌, ◌∙◌, ap, true, false, if◌then◌else◌, none, some, [], ◌∷◌, Result, ok, ◌>>=◌, arith,
}
use my_net_core_proxy.Prelude.Pairs.{pair_key}
use my_net_core_proxy.Prelude.Sets.{contains}
use my_net_core_proxy.Prelude.Sets.Order.{contains-set_insert}
use my_net_core_proxy.Net.EventLoop.{EventLoop, runs_now, enqueue}
use my_net_core_proxy.Net.EventLoop.Rounds.{Worker, run_functors, do_pending_functors}
use my_net_core_proxy.Net.Timer
use my_net_core_proxy.Net.Timer.{Timer, TimerId}
use my_net_core_proxy.Net.Timestamp.{Seconds}
use my_net_core_proxy.Net.TimerQueue.{
  TimerQueue, load, new_timer, timer_id, add_timer_in_loop, cancel_in_loop,
}
use my_net_core_proxy.Net.TimerQueue.Invariant.{Inv}
use my_net_core_proxy.Net.TimerQueue.Ownership.{touched, touched_self, made-Inv, none-Absent}
use my_net_core_proxy.Net.TimerQueue.Steps.{add_timer_in_loop-Inv, unaffected}

-- What the two calls give to `runInLoop`: a timer by its address, and an id.
pub data TimerTask : Type 0 where
  adds : ℕ → TimerTask
  cancels : TimerId → TimerTask

-- The loop, and the timer queue that its tasks work on.
abbrev pub TimerLoop : Type 0 → Type 0 → Type 0
TimerLoop St F = Worker St TimerTask (TimerQueue F)

module _ {St F : Type 0} where
  -- A task, with the clock at the setting of the descriptor.
  unfoldable pub run_task : ℕ → TimerTask → TimerLoop St F → Result (TimerLoop St F)
  run_task clock (adds p) w = do q ← add_timer_in_loop clock p w.rest; ok (record w { rest = q })
  run_task clock (cancels id) w = do q ← cancel_in_loop id w.rest; ok (record w { rest = q })

  unfoldable pub run_in_loop : ℕ → TimerTask → TimerLoop St F → Result (TimerLoop St F)
  unfolding run_task
  run_in_loop clock t w =
      if runs_now w.loop then run_task clock t w else ok (record w { loop = enqueue w.loop t })

  -- `addTimer` up to its return: the timer is made at the address `p` and given to the loop.
  unfoldable pub post_timer : ℕ → ℕ → F → ℕ → Seconds → TimerLoop St F → Result (TimerLoop St F)
  unfolding run_in_loop
  post_timer clock p cb when interval w =
      run_in_loop clock (adds p) (record w { rest = new_timer p cb when interval w.rest })

  -- The whole call, with no step of another thread in between.
  unfoldable pub add_timer :
      ℕ → ℕ → F → ℕ → Seconds → TimerLoop St F → Result (TimerId × TimerLoop St F)
  unfolding post_timer timer_id
  add_timer clock p cb when interval w = do
    w' ← post_timer clock p cb when interval w
    id ← timer_id p w'.rest
    ok (id, w')

  unfoldable pub cancel : ℕ → TimerId → TimerLoop St F → Result (TimerLoop St F)
  unfolding run_in_loop
  cancel clock id w = run_in_loop clock (cancels id) w

  -- The functor that is called ends, and with it doPendingFunctors.
  abbrev pub functors_end : TimerLoop St F → TimerLoop St F
  functors_end w = record w { loop = record w.loop { calling_pending_functors = false } }

  -- In the loop's thread, while a functor runs as the last of its queue and no task waits, with a
  -- queue of valid timers that runs no callbacks and a free address: a timer that the functor
  -- adds waits as a task, so a cancel of it after the functors and before the next round finds no
  -- timer and succeeds, and after the next doPendingFunctors the cancelled timer is active.
  pub cancel-add_timer :
      (clock p : ℕ) (cb : F) (when : ℕ) (interval : Seconds) (w : TimerLoop St F)
      → w.loop.in_loop_thread ≡ true
      → w.loop.calling_pending_functors ≡ true
      → w.loop.pending_functors ≡ []
      → Inv w.rest []
      → w.rest.calling_expired_timers ≡ false
      → w.rest.heap p ≡ none
      → (id : TimerId) × (w1 w2 w3 : TimerLoop St F) × (add_timer clock p cb when interval w
          ≡ ok (id, w1))
        × (cancel clock id (functors_end w1) ≡ ok w2)
        × (do_pending_functors (run_task clock) (λ (e : ℕ) v. ok v) w2 ≡ ok w3)
        × (contains w3.rest.active_timers (id.timer, id.sequence) ≡ true)
        × Inv w3.rest []
  unfolding add_timer post_timer timer_id load new_timer cancel run_in_loop run_task
      do_pending_functors run_functors runs_now enqueue cancel_in_loop touched
  cancel-add_timer clock p cb when interval w here calling alone v idle free =
      let t : Timer F = Timer.new w.rest.num_created cb when interval in
      let q1 : TimerQueue F = record (touched w.rest p (some t)) {
        num_created = w.rest.num_created + 1;
      } in
      let v1 : Inv q1 ((when, p) ∷ []) =
        unaffected (touched w.rest p (some t)) ((when, p) ∷ []) w.rest.calling_expired_timers
          w.rest.canceling_timers (w.rest.num_created + 1) w.rest.alarm
          (made-Inv w.rest [] when p t v free) in
      let (q2, added, v2, active) =
        add_timer_in_loop-Inv q1 [] when p clock t v1 (touched_self w.rest p (some t)) in
      let l1 : EventLoop St TimerTask = enqueue w.loop (adds p) in
      let w2 : TimerLoop St F = record {
        loop = record l1 { calling_pending_functors = false };
        rest = q1;
      } in
      (
        record { timer = p; sequence = w.rest.num_created },
        record { loop = l1; rest = q1 },
        w2,
        record {
          loop = record l1 { calling_pending_functors = false; pending_functors = [] };
          rest = q2;
        },
        ground (arith, here, calling, touched_self w.rest p (some t)),
        ground (arith, here, idle, (none-Absent w.rest [] p v free).1 w.rest.num_created),
        ground (arith, alone, added),
        ap (λ l. contains l (p, w.rest.num_created)) active
            ∙ contains-set_insert (p, w.rest.num_created) (p, w.rest.num_created)
                w.rest.active_timers
            ∙ ground (arith, pair_key.eq_refl (p, w.rest.num_created)),
        v2,
      )
