-- ===== src/Net/EventLoop/Threads/Wakeup.antt =====
-- net/event_loop.cpp: the event descriptor as the signal that the loop's thread sleeps on.
use my_net_core_proxy.Prelude.{
  ◌+◌, ◌<◌, ◌≡◌, refl, true, false, some, List, [], ◌∷◌, inl, inr, ◌≢◌, arith, Option-cases,
}
use my_net_core_proxy.Net.EventLoop.{EventLoop, wakeup, handle_wakeup, quit, runs_now, enqueue}
use my_net_core_proxy.Net.EventLoop.Threads.{
  Phase, testing, running, polling, handling, ended, Threads, Action, takes, woken, reads, handled,
  post, own, act, acts, enter,
}

module _ {State T : Type 0} where
  -- The event descriptor is readable, or a thread stands before its write to it.
  abbrev pub Signalled : Threads State T → Type 0
  Signalled s = 0 < s.loop.wakeups + s.waking

  -- Between the swap of the queue and the return of epoll_wait, tasks in the queue are signalled,
  -- and so is a quit.
  abbrev pub InPhase : Threads State T → Phase T → Type 0
  InPhase s testing = s.loop.calling_pending_functors ≡ false
  InPhase s (running ts) =
      (s.loop.calling_pending_functors ≡ true) × (s.loop.pending_functors ≢ [] → Signalled s)
  InPhase s polling =
      (s.loop.calling_pending_functors ≡ false) × (s.loop.pending_functors ≢ [] → Signalled s)
  InPhase s (handling r) = s.loop.calling_pending_functors ≡ false
  InPhase s ended = Unit

  pub record Inv (s : Threads State T) : Type 0 where
    pub own_thread : s.loop.in_loop_thread ≡ true
    pub in_phase : InPhase s s.phase

  act_in-Inv :
      (a : Action T) (p : Phase T) (s : Threads State T)
      → s.loop.in_loop_thread ≡ true
      → s.phase ≡ p
      → InPhase s p
      → {s' : Threads State T} → act a s ≡ some s'
      → Inv s'
  unfolding act own post runs_now enqueue wakeup handle_wakeup quit
  act_in-Inv a testing s t f h e = ground (arith, t, f, h, e)
  act_in-Inv a (running (v ∷ vs)) s t f h e = ground (arith, t, f, h, e)
  act_in-Inv a (running []) s t f h e = ground (arith, t, f, h, e)
  act_in-Inv a polling s t f h e = ground (arith, t, f, h, e)
  act_in-Inv a (handling true) s t f h e = ground (arith, t, f, h, e)
  act_in-Inv a (handling false) s t f h e = ground (arith, t, f, h, e)
  act_in-Inv a ended s t f h e = ground (arith, t, f, h, e)

  pub act-Inv :
      (a : Action T) (s : Threads State T)
      → Inv s
      → {s' : Threads State T} → act a s ≡ some s'
      → Inv s'
  act-Inv a s h e = act_in-Inv a s.phase s h.own_thread refl h.in_phase e

  pub acts-Inv :
      (actions : List (Action T)) (s : Threads State T)
      → Inv s
      → {s' : Threads State T} → acts actions s ≡ some s'
      → Inv s'
  unfolding acts
  acts-Inv [] s h e = ground (arith, h, e)
  acts-Inv (a ∷ rest) s h e = elim (Option-cases (act a s)) [
    | inl f ↦ ground (arith, f, e)
    | inr (s1, f) ↦ acts-Inv rest s1 (act-Inv a s h f) (ground (arith, f, e))
  ]

  pub enter-Inv :
      (l : EventLoop State T)
      → l.in_loop_thread ≡ true
      → l.calling_pending_functors ≡ false
      → Inv (enter l)
  unfolding enter
  enter-Inv l t c = record { own_thread = t; in_phase = c }

  -- For a loop() that is entered in the loop's thread, outside the queue of tasks, and any
  -- interleaving of its steps with calls of runInLoop() and quit() in other threads: where the
  -- loop's thread stands in epoll_wait with tasks in the queue, no quit has come and no other
  -- thread stands before its write to the event descriptor, epoll_wait returns for that
  -- descriptor, and after its read the next doPendingFunctors takes exactly these tasks.
  pub acts-woken :
      (l : EventLoop State T) (actions : List (Action T)) (s : Threads State T) (t : T)
      (ts : List T)
      → l.in_loop_thread ≡ true
      → l.calling_pending_functors ≡ false
      → acts actions (enter l) ≡ some s
      → s.phase ≡ polling
      → s.waking ≡ 0
      → s.loop.quitting ≡ false
      → s.loop.pending_functors ≡ t ∷ ts
      → acts (woken ∷ reads ∷ handled ∷ takes ∷ []) s
        ≡ some (record s {
          loop = record s.loop {
            wakeups = 0;
            calling_pending_functors = true;
            pending_functors = [];
          };
          phase = running (t ∷ ts);
        })
  unfolding acts act own handle_wakeup
  acts-woken l actions s t ts own_thread calling ran p w q queue =
      let inv = acts-Inv actions (enter l) (enter-Inv l own_thread calling) ran in
      ground (arith, inv, p, w, q, queue)
