-- ===== src/Net/TimerQueue/Posting/Kept.antt =====
-- net/timer_queue.cpp: what each call of addTimer and cancel, in one thread or another, keeps.
use my_net_core_proxy.Prelude.{
  ℕ, ◌≡◌, ◌≢◌, refl, sym, ◌∙◌, subst, ap, ◌⊎◌, inl, inr, Bool, true, false, ◌==◌, Bool-cases, none,
  some, Option-cases, List, [], ◌∷◌, append-nil, Result, ok, fault, dangling, arith,
}
use my_net_core_proxy.Net.EventLoop.{runs_now, enqueue}
use my_net_core_proxy.Net.EventLoop.Rounds.{run_functors, do_pending_functors}
use my_net_core_proxy.Net.Timer.{Timer, TimerId}
use my_net_core_proxy.Net.Timestamp.{Seconds}
use my_net_core_proxy.Net.TimerQueue.{TimerQueue, Entry, load, timer_id, new_timer}
use my_net_core_proxy.Net.TimerQueue.Cancel.{cancel_in_loop-Inv}
use my_net_core_proxy.Net.TimerQueue.Expired.{reordered}
use my_net_core_proxy.Net.TimerQueue.Invariant.{Inv, pointer_in}
use my_net_core_proxy.Net.TimerQueue.Posting.{
  TimerTask, adds, cancels, TimerLoop, run_task, run_in_loop, post_timer, add_timer, cancel,
}
use my_net_core_proxy.Net.TimerQueue.Steps.{add_timer_in_loop-Inv}
use my_net_core_proxy.Net.TimerQueue.Posting.Waiting.{outs, outs-append, allocated-Inv}
use my_net_core_proxy.Net.TimerQueue.Posting.Calls.{
  adds_timer, posts_timer, cancels_timer, Calling, by_thread, read_back, step,
}
use my_net_core_proxy.Prelude.Pairs.{pair_key}
use my_net_core_proxy.Prelude.Sets.{contains}
use my_net_core_proxy.Prelude.Sets.Pairs.{contains-set_insert_self}

module _ {F : Type 0} where
  -- The timer with this address and sequence does not live.
  abbrev pub Gone : ℕ → ℕ → TimerQueue F → Type 0
  Gone p s q = (t : Timer F) → q.heap p ≡ some t → t.sequence ≢ s

module _ {St F : Type 0} where
  -- Outside the queue of tasks, the timers that live are those that wait in the sets and those that
  -- wait to be added, each once.
  pub record Agrees (c : Calling St F) : Type 0 where
    pub idle : c.worker.loop.calling_pending_functors ≡ false
    pub agrees : Inv c.worker.rest (outs c.worker.loop.pending_functors)

  run_functors-Inv :
      (clock : ℕ) (tasks : List TimerTask) (w : TimerLoop St F)
      → Inv w.rest (outs tasks)
      → (w' : TimerLoop St F) × (run_functors (run_task clock) (λ (e : ℕ) v. ok v) tasks w ≡ ok w')
        × Inv w'.rest []
        × (w'.loop ≡ w.loop)
  unfolding run_functors run_task outs pointer_in
  run_functors-Inv clock [] w v = (w, refl, v, refl)
  run_functors-Inv clock (adds p ∷ tasks) w v =
      let (t, at, _) = v.held p (ground arith) in
      let (q, added, v', _) = add_timer_in_loop-Inv w.rest (outs tasks) 0 p clock t v at in
      let (w', done, w_ok, same) = run_functors-Inv clock tasks (record w { rest = q }) v' in
      (w', ground (arith, added, done), w_ok, same)
  run_functors-Inv clock (cancels id ∷ tasks) w v =
      let (q, cancelled, v', _, _, _) = cancel_in_loop-Inv w.rest (outs tasks) id v in
      let (w', done, w_ok, same) = run_functors-Inv clock tasks (record w { rest = q }) v' in
      (w', ground (arith, cancelled, done), w_ok, same)

  pub do_pending_functors-Inv :
      (clock : ℕ) (w : TimerLoop St F)
      → Inv w.rest (outs w.loop.pending_functors)
      → (w' : TimerLoop St F) × (do_pending_functors (run_task clock) (λ (e : ℕ) v. ok v) w ≡ ok w')
        × (w'.loop.calling_pending_functors ≡ false)
        × Inv w'.rest (outs w'.loop.pending_functors)
  unfolding outs do_pending_functors
  do_pending_functors-Inv clock w v =
      let w0 : TimerLoop St F = record w {
        loop = record w.loop { calling_pending_functors = true; pending_functors = [] };
      } in
      let (w1, done, v1, same) = run_functors-Inv clock w.loop.pending_functors w0 v in
      (
        record w1 { loop = record w1.loop { calling_pending_functors = false } },
        ground (arith, done),
        refl,
        subst (λ l. Inv w1.rest (outs l.pending_functors)) (sym same) v1,
      )

  -- The return of an addTimer in another thread either reads its own timer, or one that is gone.
  pub read_back-cases :
      (p s : ℕ) (w : TimerLoop St F)
      → (read_back p s w ≡ ok tt) ⊎ ((read_back p s w ≡ fault dangling) × Gone p s w.rest)
  unfolding read_back timer_id load
  read_back-cases p s w = elim (Option-cases (w.rest.heap p)) [
    | inl free ↦ inr (ground (arith, free), λ t at same. ground (arith, free, at))
    | inr (t, at) ↦ elim (Bool-cases (t.sequence == s)) [
      | inl e ↦ inl (ground (arith, at, e))
      | inr e ↦ inr (ground (arith, at, e), λ t' at' same. ground (arith, at, at', e, same))
    ]
  ]

module _ {St F : Type 0} (run_callback : F → TimerQueue F → Result (TimerQueue F)) where
  -- addTimer in the loop's thread reads a timer that lives.
  pub add_timer-Agrees :
      (clock p : ℕ) (cb : F) (when : ℕ) (interval : Seconds) (c : Calling St F)
      → Agrees c
      → c.worker.rest.heap p ≡ none
      → (c' : Calling St F) × (step run_callback (adds_timer clock p cb when interval) c ≡ ok c')
        × Agrees c'
  unfolding step add_timer post_timer timer_id load run_in_loop run_task runs_now
  add_timer-Agrees clock p cb when interval c a free =
      let out : List Entry = outs c.worker.loop.pending_functors in
      let q1 : TimerQueue F = new_timer p cb when interval c.worker.rest in
      let (t, v1, at) = allocated-Inv p cb when interval c.worker.rest out a.agrees free in
      let (q2, added, v2, active) = add_timer_in_loop-Inv q1 out 0 p clock t v1 at in
      let (t', there, _, _) = v2.owned p t.sequence (
        ap (λ l. contains l (p, t.sequence)) active
        ∙ contains-set_insert_self p t.sequence q1.active_timers) in
      (
        record c { worker = record { loop = (by_thread true c.worker).loop; rest = q2 } },
        ground (arith, free, a.idle, added, there),
        record { idle = a.idle; agrees = v2 },
      )

  pub post_timer-Agrees :
      (clock p : ℕ) (cb : F) (when : ℕ) (interval : Seconds) (c : Calling St F)
      → Agrees c
      → c.worker.rest.heap p ≡ none
      → (c' : Calling St F) × (step run_callback (posts_timer clock p cb when interval) c ≡ ok c')
        × Agrees c'
  unfolding outs step post_timer run_in_loop runs_now enqueue
  post_timer-Agrees clock p cb when interval c a free =
      let out : List Entry = outs c.worker.loop.pending_functors in
      let q1 : TimerQueue F = new_timer p cb when interval c.worker.rest in
      let (t, v1, at) = allocated-Inv p cb when interval c.worker.rest out a.agrees free in
      (
        record {
          worker = record { loop = enqueue (by_thread false c.worker).loop (adds p); rest = q1 };
          unread = (p, c.worker.rest.num_created) ∷ c.unread;
        },
        ground (arith, free),
        record {
          idle = a.idle;
          agrees =
              subst (Inv q1) (sym (outs-append c.worker.loop.pending_functors (adds p ∷ [])))
                (reordered q1 out 0 p v1);
        },
      )

  pub cancel-Agrees :
      (here : Bool) (clock : ℕ) (id : TimerId) (c : Calling St F)
      → Agrees c
      → (c' : Calling St F) × (step run_callback (cancels_timer here clock id) c ≡ ok c')
        × Agrees c'
  unfolding outs step cancel run_in_loop run_task runs_now enqueue
  cancel-Agrees true clock id c a =
      let (q, cancelled, v', _, _, _) =
        cancel_in_loop-Inv c.worker.rest (outs c.worker.loop.pending_functors) id a.agrees in
      (
        record c { worker = record { loop = (by_thread true c.worker).loop; rest = q } },
        ground (arith, a.idle, cancelled),
        record { idle = a.idle; agrees = v' },
      )
  cancel-Agrees false clock id c a = (
    record c {
      worker = record c.worker { loop = enqueue (by_thread false c.worker).loop (cancels id) };
    },
    refl,
    record {
      idle = a.idle;
      agrees =
          subst (Inv c.worker.rest)
            (sym (
              outs-append c.worker.loop.pending_functors (cancels id ∷ [])
              ∙ append-nil (outs c.worker.loop.pending_functors)))
            a.agrees;
    },
  )
