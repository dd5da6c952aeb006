-- ===== src/Net/TimerQueue/Posting/Threads.antt =====
-- net/timer_queue.cpp: sequences of addTimer and cancel in several threads and of rounds of the loop.
use my_net_core_proxy.Prelude.{
  ℕ, ◌≡◌, refl, sym, subst, ap, ◌⊎◌, inl, inr, true, false, Bool-cases, Option-cases, List, [], ◌∷◌,
  ◌++◌, Result, ok, fault, dangling, overflow, arith,
}
use my_net_core_proxy.Net.EventLoop.{EventLoop}
use my_net_core_proxy.Net.TimerQueue.{TimerQueue, empty}
use my_net_core_proxy.Net.TimerQueue.Running.{Behaves, handle_read_out}
use my_net_core_proxy.Net.TimerQueue.Invariant.{Inv, empty-Inv}
use my_net_core_proxy.Net.TimerQueue.Posting.{TimerTask}
use my_net_core_proxy.Net.TimerQueue.Posting.Waiting.{outs}
use my_net_core_proxy.Net.TimerQueue.Posting.Calls.{
  Call, adds_timer, posts_timer, returns_id, cancels_timer, runs_tasks, fires, Calling, among,
  without, by_thread, step, run,
}
use my_net_core_proxy.Prelude.Pairs.{pair_key}
use my_net_core_proxy.Net.TimerQueue.Posting.Kept.{
  Gone, Agrees, do_pending_functors-Inv, read_back-cases, add_timer-Agrees, post_timer-Agrees,
  cancel-Agrees,
}

module _ {St F : Type 0} (run_callback : F → TimerQueue F → Result (TimerQueue F)) where
  -- A call of `calls` is the return of an addTimer in another thread whose timer does not live any more.
  abbrev pub ReadsGone : List (Call F) → Calling St F → Type 0
  ReadsGone calls c =
      (earlier later : List (Call F)) × (p s : ℕ) × (c' : Calling St F) × (calls
        ≡ earlier ++ returns_id p s ∷ later)
      × (run run_callback earlier c ≡ ok c')
      × (among p s c'.unread ≡ true)
      × Gone p s c'.worker.rest

  -- What becomes of one call, and of a sequence of them.
  abbrev StepOutcome : Call F → Calling St F → Type 0
  StepOutcome call c =
      ((c' : Calling St F) × (step run_callback call c ≡ ok c') × Agrees c')
      ⊎ (step run_callback call c ≡ fault overflow)
      ⊎ ((p s : ℕ) × (call ≡ returns_id p s)
          × (step run_callback call c ≡ fault dangling)
          × (among p s c.unread ≡ true)
          × Gone p s c.worker.rest)

  abbrev pub RunOutcome : List (Call F) → Calling St F → Type 0
  RunOutcome calls c =
      ((c' : Calling St F) × (run run_callback calls c ≡ ok c')
        × Inv c'.worker.rest (outs c'.worker.loop.pending_functors))
      ⊎ (run run_callback calls c ≡ fault overflow)
      ⊎ ((run run_callback calls c ≡ fault dangling) × ReadsGone calls c)

  step-Agrees :
      Behaves run_callback → (call : Call F) (c : Calling St F) → Agrees c → StepOutcome call c
  unfolding step
  step-Agrees b (adds_timer clock p cb when interval) c a =
      elim (Option-cases (c.worker.rest.heap p)) [
        | inr (t, used) ↦ inl (c, ground (arith, used), a)
        | inl free ↦ inl (add_timer-Agrees run_callback clock p cb when interval c a free)
      ]
  step-Agrees b (posts_timer clock p cb when interval) c a =
      elim (Option-cases (c.worker.rest.heap p)) [
        | inr (t, used) ↦ inl (c, ground (arith, used), a)
        | inl free ↦ inl (post_timer-Agrees run_callback clock p cb when interval c a free)
      ]
  step-Agrees b (returns_id p s) c a = elim (Bool-cases (among p s c.unread)) [
    | inr e ↦ inl (c, ground (arith, e), a)
    | inl e ↦ elim (read_back-cases p s c.worker) [
      | inl fine ↦ inl (
        record c { unread = without p s c.unread },
        ground (arith, e, fine),
        record { idle = a.idle; agrees = a.agrees },
      )
      | inr (bad, gone) ↦ inr (inr (p, s, refl, ground (arith, e, bad), e, gone))
    ]
  ]
  step-Agrees b (cancels_timer here clock id) c a =
      inl (cancel-Agrees run_callback here clock id c a)
  step-Agrees b (runs_tasks clock) c a =
      let (w, done, idle, v) = do_pending_functors-Inv clock (by_thread true c.worker) a.agrees in
      inl (record c { worker = w }, ground (arith, done), record { idle = idle; agrees = v })
  step-Agrees b (fires now clock) c a =
      elim (handle_read_out run_callback now clock c.worker.rest
        (outs c.worker.loop.pending_functors) b a.agrees) [
          | inr over ↦ inr (inl (ground (arith, over)))
          | inl (q, done, v, _) ↦ inl (
            record c { worker = record c.worker { rest = q } },
            ground (arith, done),
            record { idle = a.idle; agrees = v },
          )
        ]

  run-Agrees :
      Behaves run_callback
      → (calls : List (Call F)) (c : Calling St F) → Agrees c
      → RunOutcome calls c
  unfolding run
  run-Agrees b [] c a = inl (c, refl, a.agrees)
  run-Agrees b (call ∷ calls) c a = elim (step-Agrees b call c a) [
    | inr (inl over) ↦ inr (inl (ground (arith, over)))
    | inr (inr (p, s, which, bad, posted, gone)) ↦ inr (
        inr (
          ground (arith, bad),
          ([], calls, p, s, c, ap (λ x. x ∷ calls) which, refl, posted, gone),
        ))
    | inl (c1, stepped, a1) ↦ elim (run-Agrees b calls c1 a1) [
      | inl (c2, rest, v) ↦ inl (c2, ground (arith, stepped, rest), v)
      | inr (inl over) ↦ inr (inl (ground (arith, stepped, over)))
      | inr (inr (bad, (earlier, later, p, s, c2, split, before, posted, gone))) ↦ inr (
          inr (
            ground (arith, stepped, bad),
            (
              call ∷ earlier,
              later,
              p,
              s,
              c2,
              ap (λ l. call ∷ l) split,
              ground (arith, stepped, before),
              posted,
              gone,
            ),
          ))
    ]
  ]

  -- From an empty timer queue and a loop with no task, outside the queue of tasks, where each
  -- callback of a timer returns and does no more to the queue than add timers at free addresses
  -- and cancel timers by any ids: for any sequence of addTimer in the loop's thread, addTimer in
  -- other threads with its return as a step of its own, cancel in any thread, and rounds of
  -- doPendingFunctors and of handleRead, provided new gives no address in use, all calls succeed,
  -- and after them the two sets agree and the timers that live are those in the sets and those
  -- that wait to be added, each once; or an expiration overflows; or the call that fails is the
  -- return of an addTimer in another thread, which reads the sequence of a timer that was deleted
  -- since it was posted.
  pub run-Inv :
      (calls : List (Call F)) (loop : EventLoop St TimerTask)
      → Behaves run_callback
      → loop.calling_pending_functors ≡ false
      → loop.pending_functors ≡ []
      → RunOutcome calls (record { worker = record { loop = loop; rest = empty }; unread = [] })
  unfolding outs
  run-Inv calls loop b idle alone =
      run-Agrees b calls (record { worker = record { loop = loop; rest = empty }; unread = [] })
        (record {
          idle = idle;
          agrees = subst (λ l. Inv (empty {F = F}) (outs l)) (sym alone) empty-Inv;
        })
