-- ===== src/Net/EventLoop/Threads.antt =====
-- net/event_loop.cpp: loop() among other threads. The loop's thread takes the steps of loop(), one at a
-- time; between any two of them other threads take theirs in runInLoop() and quit(), where the change
-- of a field and the write to the event descriptor behind it are separate steps.
pub mod Wakeup
pub mod Quitting
pub mod Order
mod Tests
use my_net_core_proxy.Prelude.{
  ℕ, zero, suc, ◌+◌, ◌-◌, ◌≡◌, Bool, true, false, ltb, if◌then◌else◌, Option, none, some, List, [],
  ◌∷◌, ◌++◌,
}
use my_net_core_proxy.Net.EventLoop.{
  EventLoop, push, set_quit, wakeup, handle_wakeup, quit, runs_now, enqueue,
}

-- Where the loop's thread stands.
pub data Phase (T : Type 0) : Type 0 where
  -- at the test of `while (!quit_)`
  testing : Phase T
  -- in doPendingFunctors, at the first of these functors, or behind the last one
  running : List T → Phase T
  -- in epoll_wait
  polling : Phase T
  -- handling the reported events; whether the event descriptor is one of them, not yet read
  handling : Bool → Phase T
  -- behind the `while`
  ended : Phase T

-- The loop, with the number of other threads that stand between the change of a field and their
-- call of wakeup(). `executed` records the functors of the queue that have been called.
pub record Threads (State T : Type 0) : Type 0 where
  pub loop : EventLoop State T
  pub phase : Phase T
  pub waking : ℕ
  pub executed : List T

pub data Action (T : Type 0) : Type 0 where
  -- the loop's thread: the test of the loop, and doPendingFunctors up to the swap
  takes leaves : Action T
  -- the functor that is called: it calls runInLoop(), it calls quit(), it returns
  functor_posts : T → Action T
  functor_quits functor_returns : Action T
  -- doPendingFunctors returns and epoll_wait is called
  polls : Action T
  -- epoll_wait returns: for the event descriptor, or else for another one, a signal or the timeout
  woken returned : Action T
  -- the callback of the wakeup channel
  reads : Action T
  -- the callback of another channel: it calls runInLoop(), it calls quit()
  callback_posts : T → Action T
  callback_quits : Action T
  -- the loop over the events ends
  handled : Action T
  -- another thread: runInLoop() up to the lock's end, quit() up to its test, and wakeup()
  pushes : T → Action T
  sets_quit writes : Action T

module _ {State T : Type 0} where
  -- `runInLoop` in the loop's thread: a direct call has no effect on the loop but that of its own
  -- calls, which are actions too.
  unfoldable pub post : EventLoop State T → T → EventLoop State T
  unfolding runs_now
  post l task = if runs_now l then l else enqueue l task

  -- The actions of the loop's thread, by where it stands; `none` where it cannot do this.
  unfoldable pub own : Action T → Phase T → Threads State T → Option (Threads State T)
  own takes testing s =
      if s.loop.quitting
      then none
      else some (record s {
        loop = record s.loop { calling_pending_functors = true; pending_functors = [] };
        phase = running s.loop.pending_functors;
      })
  own leaves testing s =
      if s.loop.quitting
      then some (record s { loop = record s.loop { looping = false }; phase = ended })
      else none
  own (functor_posts t) (running (u ∷ us)) s = some (record s { loop = post s.loop t })
  own functor_quits (running (u ∷ us)) s = some (record s { loop = quit s.loop })
  own functor_returns (running (u ∷ us)) s =
      some (record s { phase = running us; executed = s.executed ++ u ∷ [] })
  own polls (running []) s =
      some (record s { loop = record s.loop { calling_pending_functors = false }; phase = polling })
  own woken polling s =
      if ltb 0 s.loop.wakeups then some (record s { phase = handling true }) else none
  own returned polling s = some (record s { phase = handling (ltb 0 s.loop.wakeups) })
  own reads (handling true) s =
      some (record s { loop = handle_wakeup s.loop; phase = handling false })
  own (callback_posts t) (handling r) s = some (record s { loop = post s.loop t })
  own callback_quits (handling r) s = some (record s { loop = quit s.loop })
  own handled (handling false) s = some (record s { phase = testing })
  own a p s = none

  unfoldable pub act : Action T → Threads State T → Option (Threads State T)
  act (pushes t) s = some (record s { loop = push s.loop t; waking = s.waking + 1 })
  act sets_quit s = some (record s { loop = set_quit s.loop; waking = s.waking + 1 })
  act writes s =
      if ltb 0 s.waking
      then some (record s { loop = wakeup s.loop; waking = s.waking - 1 })
      else none
  act a s = own a s.phase s

  unfoldable pub acts : List (Action T) → Threads State T → Option (Threads State T)
  acts [] s = some s
  acts (a ∷ rest) s = elim (act a s) [ none ↦ none | some s' ↦ acts rest s' ]

  -- loop() behind its assertions.
  unfoldable pub enter : EventLoop State T → Threads State T
  enter l = record {
    loop = record l { looping = true; quitting = false };
    phase = testing;
    waking = 0;
    executed = [];
  }
