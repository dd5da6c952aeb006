-- ===== src/Net/EventLoopThread.antt =====
-- net/event_loop_thread.h and net/event_loop_thread.cpp: a thread that runs one loop, as another thread sees
-- it: its loop, and how far `threadFunc` has come. What tasks and events do is a parameter, as in Rounds.
pub mod Joining
mod Tests
use my_net_core_proxy.Prelude.{
  ◌≡◌, refl, ap₂, Bool, true, false, ltb, if◌then◌else◌, Option, none, some, List, [], ◌∷◌, Result,
  ok, ◌>>=◌, arith,
}
use my_net_core_proxy.Net.EventLoop.{EventLoop, quit, handle_wakeup}
use my_net_core_proxy.Net.EventLoop.Rounds.{
  Worker, Run, stopped, blocked, run_functors, do_pending_functors, handle_events, loop,
  loop_rounds,
}

-- Where the thread stands: before loop(), at the test of its `while`, behind that test, in
-- doPendingFunctors with the functors that it has taken and not called yet, in `epoll_wait`, or with the
-- events that it has still to handle. A functor or an event under way counts as one to come.
pub data Place (T Event : Type 0) : Type 0 where
  outside at_test past_test in_wait : Place T Event
  in_functors : List T → Place T Event
  in_events : List Event → Place T Event

-- `loop_ptr` points to the loop on the thread's stack; `joinable` says whether `thread_` holds a thread.
pub record EventLoopThread (State T X Event : Type 0) : Type 0 where
  pub loop_ptr : Option (Worker State T X)
  pub place : Place T Event
  pub joinable : Bool
  pub exiting : Bool

-- How a call of `join` ends: it returns, or waits for the thread for ever.
pub data Join (A : Type 0) : Type 0 where
  joined : A → Join A
  waiting : A → Join A

module _ {State T X : Type 0} where
  -- `quit()` by another thread than the loop's.
  unfoldable pub quit_from_outside : Worker State T X → Worker State T X
  unfolding quit
  quit_from_outside w =
      let seen : EventLoop State T = record w.loop { in_loop_thread = false } in
      record w { loop = record (quit seen) { in_loop_thread = w.loop.in_loop_thread } }

module _ {State T X Event : Type 0} where
  abbrev pub new : EventLoopThread State T X Event
  new = record { loop_ptr = none; place = outside; joinable = false; exiting = false }

  -- `startLoop()`, with the loop that the thread makes. It returns when the pointer is set; how far the
  -- thread has come by then is open.
  unfoldable pub start_loop :
      Worker State T X
      → Place T Event
      → EventLoopThread State T X Event
      → Worker State T X × EventLoopThread State T X Event
  start_loop made place t =
      (made, record t { loop_ptr = some made; place = place; joinable = true })

  unfoldable pub stop : EventLoopThread State T X Event → EventLoopThread State T X Event
  unfolding quit_from_outside
  stop t = elim t.loop_ptr [
    | none ↦ t
    | some w ↦ record t { loop_ptr = some (quit_from_outside w) }
  ]

  -- The first loop of the pool's destructor.
  unfoldable pub stop_all :
      List (EventLoopThread State T X Event) → List (EventLoopThread State T X Event)
  unfolding stop
  stop_all [] = []
  stop_all (t ∷ ts) = stop t ∷ stop_all ts

module _ {State T X Event : Type 0} (body : T → Worker State T X → Result (Worker State T X))
    (handle : Event → Worker State T X → Result (Worker State T X)) where
  -- The loop from `epoll_wait` on. Without an answer to come it returns if the event descriptor can be
  -- read, which its channel then does, and waits for ever if not.
  unfoldable pub from_wait : List (List Event) → Worker State T X → Result (Run (Worker State T X))
  unfolding handle_events handle_wakeup loop_rounds
  from_wait [] w =
      if ltb 0 w.loop.wakeups
      then loop_rounds body handle [] (record w { loop = handle_wakeup w.loop })
      else ok (blocked w)
  from_wait (events ∷ answers) w = do
    w1 ← handle_events body handle events w
    loop_rounds body handle answers w1

  -- The rest of `threadFunc`, for the answers of `epoll_wait` to come.
  unfoldable pub run_thread :
      List (List Event) → Place T Event → Worker State T X → Result (Run (Worker State T X))
  unfolding from_wait do_pending_functors run_functors
  run_thread answers outside w = loop body handle answers w
  run_thread answers at_test w = loop_rounds body handle answers w
  run_thread answers past_test w = do w1 ← do_pending_functors body handle w; from_wait answers w1
  run_thread answers (in_functors functors) w = do
    w1 ← run_functors body handle functors w
    from_wait answers (record w1 { loop = record w1.loop { calling_pending_functors = false } })
  run_thread answers in_wait w = from_wait answers w
  run_thread answers (in_events events) w = do
    w1 ← handle_events body handle events w
    loop_rounds body handle answers w1

  unfoldable pub join :
      List (List Event)
      → EventLoopThread State T X Event
      → Result (Join (EventLoopThread State T X Event))
  unfolding run_thread
  join answers t =
      if t.joinable
      then elim t.loop_ptr [
        | none ↦ ok (waiting t)
        | some w ↦ do
          run ← run_thread answers t.place w
          elim run [
            | stopped w' ↦ ok (joined (record t { loop_ptr = some w'; joinable = false }))
            | blocked w' ↦ ok (waiting (record t { loop_ptr = some w' }))
          ]
      ]
      else ok (joined t)

  -- The destructor.
  unfoldable pub destroy :
      List (List Event)
      → EventLoopThread State T X Event
      → Result (Join (EventLoopThread State T X Event))
  unfolding join stop
  destroy answers t =
      if t.joinable then join answers (stop (record t { exiting = true })) else ok (joined t)

  -- The second loop of the pool's destructor: a thread is joined behind the one before it.
  unfoldable pub join_all :
      List (List Event)
      → List (EventLoopThread State T X Event)
      → Result (Join (List (EventLoopThread State T X Event)))
  unfolding join
  join_all answers [] = ok (joined [])
  join_all answers (t ∷ ts) = do
    first ← join answers t
    elim first [
      | waiting t' ↦ ok (waiting (t' ∷ ts))
      | joined t' ↦ do
        rest ← join_all answers ts
        elim rest [ waiting ts' ↦ ok (waiting (t' ∷ ts')) | joined ts' ↦ ok (joined (t' ∷ ts')) ]
    ]

  -- `~threadPool()`
  unfoldable pub destroy_pool :
      List (List Event)
      → List (EventLoopThread State T X Event)
      → Result (Join (List (EventLoopThread State T X Event)))
  unfolding stop_all join_all
  destroy_pool answers threads = join_all answers (stop_all threads)
