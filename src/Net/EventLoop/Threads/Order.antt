-- ===== src/Net/EventLoop/Threads/Order.antt =====
-- net/event_loop.cpp: which functors have been called when, among the threads that post them.
use my_net_core_proxy.Prelude.{
  ◌≡◌, refl, true, false, some, List, [], ◌∷◌, ◌++◌, inl, inr, arith, Option-cases, append-nil,
  append_assoc,
}
use my_net_core_proxy.Net.EventLoop.{EventLoop, wakeup, handle_wakeup, quit, runs_now, enqueue}
use my_net_core_proxy.Net.EventLoop.Threads.{
  Phase, testing, running, polling, handling, ended, Threads, Action, functor_posts, pushes, post,
  own, act, acts, enter,
}
use my_net_core_proxy.Net.EventLoop.Threads.Wakeup.{Inv, act-Inv, enter-Inv}

module _ {T : Type 0} where
  -- The functors that doPendingFunctors has still to call.
  unfoldable pub taken : Phase T → List T
  taken (running ts) = ts
  taken p = []

  -- The task that an action puts into the queue, by the call of runInLoop that it is.
  unfoldable pub posted : Action T → List T
  posted (pushes t) = t ∷ []
  posted (functor_posts t) = t ∷ []
  posted a = []

  unfoldable pub all_posted : List (Action T) → List T
  all_posted [] = []
  all_posted (a ∷ rest) = posted a ++ all_posted rest

module _ {State T : Type 0} where
  -- Called, taken and queued, in this order.
  unfoldable pub tasks : Threads State T → List T
  tasks s = s.executed ++ taken s.phase ++ s.loop.pending_functors

  act_in-tasks :
      (a : Action T) (p : Phase T) (s : Threads State T)
      → Inv s
      → s.phase ≡ p
      → {s' : Threads State T} → act a s ≡ some s'
      → tasks s' ≡ tasks s ++ posted a
  unfolding act own post runs_now enqueue wakeup handle_wakeup quit tasks taken posted
  act_in-tasks a testing s i f e = ground (
    arith,
    f,
    i,
    e,
    append-nil (tasks s),
    append_assoc (s.executed ++ taken s.phase) s.loop.pending_functors (posted a),
    append-nil s.executed,
    append-nil (s.executed ++ s.loop.pending_functors),
  )
  act_in-tasks a (running (v ∷ vs)) s i f e = ground (
    arith,
    f,
    i,
    e,
    append-nil (tasks s),
    append_assoc (s.executed ++ taken s.phase) s.loop.pending_functors (posted a),
    append_assoc s.executed (v ∷ []) vs,
  )
  act_in-tasks a (running []) s i f e = ground (
    arith,
    f,
    i,
    e,
    append-nil (tasks s),
    append_assoc (s.executed ++ taken s.phase) s.loop.pending_functors (posted a),
    append-nil s.executed,
  )
  act_in-tasks a polling s i f e = ground (
    arith,
    f,
    i,
    e,
    append-nil (tasks s),
    append_assoc (s.executed ++ taken s.phase) s.loop.pending_functors (posted a),
    append-nil s.executed,
  )
  act_in-tasks a (handling true) s i f e = ground (
    arith,
    f,
    i,
    e,
    append-nil (tasks s),
    append_assoc (s.executed ++ taken s.phase) s.loop.pending_functors (posted a),
    append-nil s.executed,
  )
  act_in-tasks a (handling false) s i f e = ground (
    arith,
    f,
    i,
    e,
    append-nil (tasks s),
    append_assoc (s.executed ++ taken s.phase) s.loop.pending_functors (posted a),
    append-nil s.executed,
  )
  act_in-tasks a ended s i f e = ground (
    arith,
    f,
    i,
    e,
    append-nil (tasks s),
    append_assoc (s.executed ++ taken s.phase) s.loop.pending_functors (posted a),
    append-nil s.executed,
  )

  acts-tasks :
      (actions : List (Action T)) (s : Threads State T)
      → Inv s
      → {s' : Threads State T} → acts actions s ≡ some s'
      → tasks s' ≡ tasks s ++ all_posted actions
  unfolding acts all_posted
  acts-tasks [] s i e = ground (arith, e, append-nil (tasks s))
  acts-tasks (a ∷ rest) s i {s' = u} e = elim (Option-cases (act a s)) [
    | inl f ↦ ground (arith, f, e)
    | inr (s1, f) ↦ ground (
      arith,
      acts-tasks rest s1 (act-Inv a s i f) {s' = u} (ground (arith, f, e)),
      act_in-tasks a s.phase s i refl f,
      append_assoc (tasks s) (posted a) (all_posted rest),
    )
  ]

  -- For a loop() that is entered in the loop's thread, outside the queue of tasks, and any
  -- interleaving of its steps with other threads: the functors that were called, those that
  -- doPendingFunctors has taken and those in the queue are, in this order, the tasks that waited
  -- at the start and then those that other threads and functors have posted, each once and in the
  -- order of the posts.
  pub executed-acts :
      (l : EventLoop State T) (actions : List (Action T)) (s : Threads State T)
      → l.in_loop_thread ≡ true
      → l.calling_pending_functors ≡ false
      → acts actions (enter l) ≡ some s
      → s.executed ++ taken s.phase ++ s.loop.pending_functors
        ≡ l.pending_functors ++ all_posted actions
  unfolding tasks enter taken
  executed-acts l actions s own_thread calling ran =
      acts-tasks actions (enter l) (enter-Inv l own_thread calling) ran
