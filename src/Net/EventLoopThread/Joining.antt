-- ===== src/Net/EventLoopThread/Joining.antt =====
-- net/event_loop_thread.cpp and net/thread_pool.cpp: threads that run are joined.
use my_net_core_proxy.Prelude.{
  ◌≡◌, refl, true, false, lt→ltb, ◌<◌, some, List, [], ◌∷◌, Result, ok, ◌>>=◌, arith,
}
use my_net_core_proxy.Net.EventLoop.{quit, handle_wakeup}
use my_net_core_proxy.Net.EventLoop.Rounds.{
  Worker, Run, stopped, run_functors, do_pending_functors, handle_events, loop_rounds,
}
use my_net_core_proxy.Net.EventLoopThread.{
  EventLoopThread, Place, outside, at_test, past_test, in_wait, in_functors, in_events, joined,
  quit_from_outside, stop, from_wait, run_thread, join, destroy_pool,
}

module _ {State T X : Type 0} where
  -- quit() was called, and the event descriptor can be read.
  abbrev pub Told : Worker State T X → Type 0
  Told w = (w.loop.quitting ≡ true) × (0 < w.loop.wakeups)

module _ {T Event : Type 0} where
  abbrev pub IsInside : Place T Event → Type 0
  IsInside outside = ⊥
  IsInside at_test = Unit {0}
  IsInside past_test = Unit {0}
  IsInside in_wait = Unit {0}
  IsInside (in_functors functors) = Unit {0}
  IsInside (in_events events) = Unit {0}

module _ {State T X Event : Type 0} where
  -- A thread that stands anywhere inside loop().
  abbrev pub Runs : EventLoopThread State T X Event → Type 0
  Runs t = (w : Worker State T X) × (t.loop_ptr ≡ some w) × IsInside t.place × (t.joinable ≡ true)

  abbrev pub AllRun : List (EventLoopThread State T X Event) → Type 0
  AllRun [] = Unit {0}
  AllRun (t ∷ ts) = Runs t × AllRun ts

-- The events that the next `epoll_wait` brings, none for a return for the event descriptor alone.
abbrev pub next_events {ℓ} : {Event : Type ℓ} → List (List Event) → List Event
next_events [] = []
next_events (events ∷ answers) = events

module _ {State T X Event : Type 0} (body : T → Worker State T X → Result (Worker State T X))
    (handle : Event → Worker State T X → Result (Worker State T X)) where
  -- A task succeeds, and neither takes back a quit() nor reads the event descriptor.
  abbrev pub KeepsTold : Type 0
  KeepsTold =
      (t : T) (w : Worker State T X)
      → Told w
      → (w' : Worker State T X) × (body t w ≡ ok w') × Told w'

  -- An event is handled with success, and its handler does not take back a quit().
  abbrev pub KeepsQuit : Type 0
  KeepsQuit =
      (e : Event) (w : Worker State T X)
      → w.loop.quitting ≡ true
      → (w' : Worker State T X) × (handle e w ≡ ok w') × (w'.loop.quitting ≡ true)

  -- What a thread may still do that reads quit_ at the next test of its loop: no more than the round in
  -- which it stands.
  abbrev pub rest_of_round :
      List (List Event) → Place T Event → Worker State T X → Result (Worker State T X)
  rest_of_round answers outside w = ok w
  rest_of_round answers at_test w = ok w
  rest_of_round answers past_test w = do
    w1 ← do_pending_functors body handle w
    handle_events body handle (next_events answers) w1
  rest_of_round answers in_wait w = handle_events body handle (next_events answers) w
  rest_of_round answers (in_functors functors) w = do
    w1 ← run_functors body handle functors w
    handle_events body handle (next_events answers)
        (record w1 { loop = record w1.loop { calling_pending_functors = false } })
  rest_of_round answers (in_events events) w = handle_events body handle events w

  run_functors-Told :
      KeepsTold
      → (ts : List T) (w : Worker State T X) → Told w
      → (w' : Worker State T X) × (run_functors body handle ts w ≡ ok w') × Told w'
  unfolding run_functors
  run_functors-Told k [] w h = (w, refl, h)
  run_functors-Told k (t ∷ ts) w h =
      let (w1, one, h1) = k t w h in
      let (w2, all, h2) = run_functors-Told k ts w1 h1 in (w2, ground (arith, one, all), h2)

  do_pending_functors-Told :
      KeepsTold
      → (w : Worker State T X) → Told w
      → (w' : Worker State T X) × (do_pending_functors body handle w ≡ ok w') × Told w'
  unfolding do_pending_functors
  do_pending_functors-Told k w h =
      let w0 : Worker State T X = record w {
        loop = record w.loop { calling_pending_functors = true; pending_functors = [] };
      } in
      let (w1, done, h1) = run_functors-Told k w.loop.pending_functors w0 h in
      (
        record w1 { loop = record w1.loop { calling_pending_functors = false } },
        ground (arith, done),
        h1,
      )

  handle_events_quit :
      KeepsQuit
      → (es : List Event) (w : Worker State T X) → w.loop.quitting ≡ true
      → (w' : Worker State T X) × (handle_events body handle es w ≡ ok w')
        × (w'.loop.quitting ≡ true)
  unfolding handle_events
  handle_events_quit k [] w h = (w, refl, h)
  handle_events_quit k (e ∷ es) w h =
      let (w1, one, h1) = k e w h in
      let (w2, all, h2) = handle_events_quit k es w1 h1 in (w2, ground (arith, one, all), h2)

  -- The loop, from a place, ends with what the rest of the round leaves.
  abbrev pub EndsWith : Result (Run (Worker State T X)) → Result (Worker State T X) → Type 0
  EndsWith out round =
      (w1 w2 : Worker State T X) × (round ≡ ok w1) × (out ≡ ok (stopped w2)) × (w2.rest ≡ w1.rest)

  loop_rounds_quit :
      (answers : List (List Event)) (w : Worker State T X)
      → w.loop.quitting ≡ true
      → loop_rounds body handle answers w
        ≡ ok (stopped (record w { loop = record w.loop { looping = false } }))
  unfolding loop_rounds
  loop_rounds_quit [] w h = ground (arith, h)
  loop_rounds_quit (events ∷ answers) w h = ground (arith, h)

  -- Told to quit, the thread does not wait for ever.
  from_wait-Told :
      KeepsQuit
      → (answers : List (List Event)) (w : Worker State T X) → Told w
      → EndsWith
          (from_wait body handle answers w)
          (handle_events body handle (next_events answers) w)
  unfolding from_wait handle_events handle_wakeup
  from_wait-Told k [] w h =
      let w1 : Worker State T X = record w { loop = handle_wakeup w.loop } in
      (
        w,
        record w1 { loop = record w1.loop { looping = false } },
        refl,
        ground (arith, lt→ltb 0 w.loop.wakeups h.1, loop_rounds_quit [] w1 h.0),
        refl,
      )
  from_wait-Told k (events ∷ answers) w h =
      let (w1, done, h1) = handle_events_quit k events w h.0 in
      (
        w1,
        record w1 { loop = record w1.loop { looping = false } },
        done,
        ground (arith, done, loop_rounds_quit answers w1 h1),
        refl,
      )

  run_thread-Told :
      KeepsTold
      → KeepsQuit
      → (answers : List (List Event)) (place : Place T Event) (w : Worker State T X)
      → IsInside place
      → Told w
      → EndsWith (run_thread body handle answers place w) (rest_of_round answers place w)
  unfolding run_thread
  run_thread-Told k1 k2 answers outside w i h = absurd i
  run_thread-Told k1 k2 answers at_test w i h = (
    w,
    record w { loop = record w.loop { looping = false } },
    refl,
    loop_rounds_quit answers w h.0,
    refl,
  )
  run_thread-Told k1 k2 answers past_test w i h =
      let (w1, done, h1) = do_pending_functors-Told k1 w h in
      let (w2, w3, round, end, same) = from_wait-Told k2 answers w1 h1 in
      (w2, w3, ground (arith, done, round), ground (arith, done, end), same)
  run_thread-Told k1 k2 answers (in_functors ts) w i h =
      let (w1, done, h1) = run_functors-Told k1 ts w h in
      let (w2, w3, round, end, same) =
        from_wait-Told k2 answers
          (record w1 { loop = record w1.loop { calling_pending_functors = false } }) h1 in
      (w2, w3, ground (arith, done, round), ground (arith, done, end), same)
  run_thread-Told k1 k2 answers in_wait w i h = from_wait-Told k2 answers w h
  run_thread-Told k1 k2 answers (in_events es) w i h =
      let (w1, done, h1) = handle_events_quit k2 es w h.0 in
      (
        w1,
        record w1 { loop = record w1.loop { looping = false } },
        done,
        ground (arith, done, loop_rounds_quit answers w1 h1),
        refl,
      )

  -- A thread that was joined, and before that did what was left of its round.
  abbrev pub Finished :
      List (List Event) → EventLoopThread State T X Event → EventLoopThread State T X Event → Type 0
  Finished answers t t' =
      (w w1 w2 : Worker State T X) × (t.loop_ptr ≡ some w)
      × (t'.loop_ptr ≡ some w2)
      × (t'.joinable ≡ false)
      × (rest_of_round answers t.place (quit_from_outside w) ≡ ok w1)
      × (w2.rest ≡ w1.rest)

  abbrev pub AllFinished :
      List (List Event)
      → List (EventLoopThread State T X Event)
      → List (EventLoopThread State T X Event)
      → Type 0
  AllFinished answers [] [] = Unit {0}
  AllFinished answers [] (t' ∷ ts') = ⊥
  AllFinished answers (t ∷ ts) [] = ⊥
  AllFinished answers (t ∷ ts) (t' ∷ ts') = Finished answers t t' × AllFinished answers ts ts'

  quit_from_outside-Told : (w : Worker State T X) → Told (quit_from_outside w)
  unfolding quit_from_outside quit
  quit_from_outside-Told w = (refl, omega arith)

  join-stop :
      KeepsTold
      → KeepsQuit
      → (answers : List (List Event)) (t : EventLoopThread State T X Event) → Runs t
      → (t' : EventLoopThread State T X Event) × (join body handle answers (stop t)
          ≡ ok (joined t'))
        × Finished answers t t'
  unfolding join stop
  join-stop k1 k2 answers t (w, at, inside, has) =
      let (w1, w2, round, end, same) =
        run_thread-Told k1 k2 answers t.place (quit_from_outside w) inside
          (quit_from_outside-Told w) in
      (
        record t { loop_ptr = some w2; joinable = false },
        ground (arith, at, has, end),
        (w, w1, w2, at, refl, refl, round, same),
      )

  -- For threads that stand anywhere inside loop(), whose tasks and event handlers succeed and
  -- take back no quit, and whose tasks leave the event descriptor readable: the destructor of the
  -- pool joins each of them, whatever epoll_wait answers, and before its end each thread has done
  -- exactly what is left of the round in which it stands: the functors that it has taken or takes
  -- in this round, and the events that it has or that one epoll_wait brings.
  pub destroy_pool_lem :
      (answers : List (List Event)) (ts : List (EventLoopThread State T X Event))
      → KeepsTold
      → KeepsQuit
      → AllRun ts
      → (ts' : List (EventLoopThread State T X Event)) × (destroy_pool body handle answers ts
          ≡ ok (joined ts'))
        × AllFinished answers ts ts'
  unfolding destroy_pool
  destroy_pool_lem answers [] k1 k2 v = ([], refl, tt)
  destroy_pool_lem answers (t ∷ ts) k1 k2 v =
      let (t', one, ended) = join-stop k1 k2 answers t v.0 in
      let (ts', others, rest) = destroy_pool_lem answers ts k1 k2 v.1 in
      (t' ∷ ts', ground (arith, one, others), (ended, rest))
