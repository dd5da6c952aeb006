-- ===== src/Net/EventLoop/Threads/Quitting.antt =====
-- net/event_loop.cpp: a quit() while the loop's thread sleeps, or is about to.
use my_net_core_proxy.Prelude.{
  ◌≡◌, refl, Bool, true, false, none, some, List, [], ◌∷◌, ◌++◌, inl, inr, arith, Option-cases,
  append-nil, append_assoc,
}
use my_net_core_proxy.Net.EventLoop.{EventLoop, wakeup, handle_wakeup, quit, runs_now, enqueue}
use my_net_core_proxy.Net.EventLoop.Threads.{
  Phase, testing, running, polling, handling, ended, Threads, Action, takes, leaves, functor_quits,
  functor_returns, polls, woken, reads, handled, post, own, act, acts, enter,
}
use my_net_core_proxy.Net.EventLoop.Threads.Wakeup.{Inv, Signalled, act-Inv, enter-Inv}

module _ {T : Type 0} where
  -- Whether a functor of the queue calls quit().
  unfoldable pub functor_quits_in : List (Action T) → Bool
  functor_quits_in [] = false
  functor_quits_in (functor_quits ∷ rest) = true
  functor_quits_in (a ∷ rest) = functor_quits_in rest

  functor_quits_in-rest :
      (a : Action T) (rest : List (Action T))
      → functor_quits_in (a ∷ rest) ≡ false
      → (functor_quits_in (a ∷ []) ≡ false) × (functor_quits_in rest ≡ false)
  unfolding functor_quits_in
  functor_quits_in-rest a rest h = ground (arith, h)

  unfoldable pub all_return : List T → List (Action T)
  all_return [] = []
  all_return (t ∷ ts) = functor_returns ∷ all_return ts

module _ {State T : Type 0} where
  -- A quit is signalled in epoll_wait and in doPendingFunctors.
  abbrev pub Heard : Threads State T → Phase T → Type 0
  Heard s (running ts) = s.loop.quitting ≡ true → Signalled s
  Heard s polling = s.loop.quitting ≡ true → Signalled s
  Heard s p = Unit

  act_in-Heard :
      (a : Action T) (p : Phase T) (s : Threads State T)
      → s.loop.in_loop_thread ≡ true
      → s.phase ≡ p
      → Heard s p
      → functor_quits_in (a ∷ []) ≡ false
      → {s' : Threads State T} → act a s ≡ some s'
      → Heard s' s'.phase
  unfolding act own post runs_now enqueue wakeup handle_wakeup quit functor_quits_in
  act_in-Heard a testing s t f h n e = ground (arith, t, f, h, e)
  act_in-Heard a (running (v ∷ vs)) s t f h n e = ground (arith, t, f, h, n, e)
  act_in-Heard a (running []) s t f h n e = ground (arith, t, f, h, e)
  act_in-Heard a polling s t f h n e = ground (arith, t, f, h, e)
  act_in-Heard a (handling true) s t f h n e = ground (arith, t, f, h, e)
  act_in-Heard a (handling false) s t f h n e = ground (arith, t, f, h, e)
  act_in-Heard a ended s t f h n e = ground (arith, t, f, h, e)

  acts-Heard :
      (actions : List (Action T)) (s : Threads State T)
      → Inv s
      → Heard s s.phase
      → functor_quits_in actions ≡ false
      → {s' : Threads State T} → acts actions s ≡ some s'
      → Heard s' s'.phase
  unfolding acts
  acts-Heard [] s i h n e = ground (arith, h, e)
  acts-Heard (a ∷ rest) s i h n {s' = u} e =
      let (n1, n2) = functor_quits_in-rest a rest n in
      elim (Option-cases (act a s)) [
        | inl f ↦ ground (arith, f, e)
        | inr (s1, f) ↦
            acts-Heard rest s1 (act-Inv a s i f) (act_in-Heard a s.phase s i.own_thread refl h n1 f)
              n2 {s' = u} (ground (arith, f, e))
      ]

  -- For a loop() that is entered in the loop's thread, outside the queue of tasks, and any
  -- interleaving with other threads in which no functor of the queue calls quit(): where the
  -- loop's thread stands in epoll_wait, quit() was called and no other thread stands before its
  -- write to the event descriptor, epoll_wait returns for that descriptor, and after its read the
  -- loop ends.
  pub acts-leaves :
      (l : EventLoop State T) (actions : List (Action T)) (s : Threads State T)
      → l.in_loop_thread ≡ true
      → l.calling_pending_functors ≡ false
      → functor_quits_in actions ≡ false
      → acts actions (enter l) ≡ some s
      → s.phase ≡ polling
      → s.waking ≡ 0
      → s.loop.quitting ≡ true
      → acts (woken ∷ reads ∷ handled ∷ leaves ∷ []) s
        ≡ some (record s { loop = record s.loop { wakeups = 0; looping = false }; phase = ended })
  unfolding acts act own handle_wakeup enter
  acts-leaves l actions s own_thread calling n ran p w q =
      let heard = acts-Heard actions (enter l) (enter-Inv l own_thread calling) tt n ran in
      ground (arith, heard, p, w, q)

  acts-all_return :
      (ts : List T) (s : Threads State T)
      → s.phase ≡ running ts
      → acts (all_return ts ++ polls ∷ []) s
        ≡ some (record s {
          loop = record s.loop { calling_pending_functors = false };
          phase = polling;
          executed = s.executed ++ ts;
        })
  unfolding acts act own all_return
  acts-all_return [] s p = ground (arith, p, append-nil s.executed)
  acts-all_return (t ∷ ts) s p =
      let s1 : Threads State T = record s { phase = running ts; executed = s.executed ++ t ∷ [] } in
      ground (arith, p, acts-all_return ts s1 refl, append_assoc s.executed (t ∷ []) ts)

  -- For a loop() that is entered in the loop's thread with tasks in the queue and nothing to read
  -- from the event descriptor: if the first task calls quit(), then after all tasks the loop's
  -- thread stands in epoll_wait with quit_ set, and the event descriptor does not wake it.
  pub functor_quits-woken :
      (l : EventLoop State T) (t : T) (ts : List T)
      → l.in_loop_thread ≡ true
      → l.wakeups ≡ 0
      → l.pending_functors ≡ t ∷ ts
      → (s : Threads State T) × (acts
            (takes ∷ functor_quits ∷ all_return (t ∷ ts) ++ polls ∷ [])
            (enter l)
          ≡ some s)
        × (s.phase ≡ polling)
        × (s.loop.quitting ≡ true)
        × (act woken s ≡ none)
  unfolding acts act own enter quit
  functor_quits-woken l t ts own_thread w queue =
      let s1 : Threads State T = record {
        loop = record l {
          looping = true;
          quitting = true;
          calling_pending_functors = true;
          pending_functors = [];
        };
        phase = running (t ∷ ts);
        waking = 0;
        executed = [];
      } in
      let s2 : Threads State T = record s1 {
        loop = record s1.loop { calling_pending_functors = false };
        phase = polling;
        executed = t ∷ ts;
      } in
      (
        s2,
        ground (arith, own_thread, w, queue, acts-all_return (t ∷ ts) s1 refl),
        refl,
        refl,
        ground (arith, w),
      )
