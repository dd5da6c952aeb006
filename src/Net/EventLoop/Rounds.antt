-- ===== src/Net/EventLoop/Rounds.antt =====
-- net/event_loop.cpp: loop() and doPendingFunctors(). What a task does and how an event is handled are
-- parameters; the answers of `epoll_wait` come as a list, an empty one for a timeout or an error.
use my_net_core_proxy.Prelude.{
  ◌≡◌, refl, sym, ◌∙◌, ap, true, false, not, if◌then◌else◌, List, [], ◌∷◌, ◌++◌, append_assoc,
  append-nil, Result, ok, check, assertion, ◌>>=◌, ◌>>◌, arith,
}
use my_net_core_proxy.Net.EventLoop.{EventLoop, quit}

-- A loop with everything that its tasks and channels reach.
pub record Worker (State T X : Type 0) : Type 0 where
  pub loop : EventLoop State T
  pub rest : X

-- How a run over the answers ended: by quitting, or blocked in the next `epoll_wait`.
pub data Run (A : Type 0) : Type 0 where
  stopped : A → Run A
  blocked : A → Run A

module _ {State T X Event : Type 0} (body : T → Worker State T X → Result (Worker State T X))
    (handle : Event → Worker State T X → Result (Worker State T X)) where
  unfoldable pub run_functors : List T → Worker State T X → Result (Worker State T X)
  run_functors [] w = ok w
  run_functors (t ∷ ts) w = do w' ← body t w; run_functors ts w'

  unfoldable pub do_pending_functors : Worker State T X → Result (Worker State T X)
  unfolding run_functors
  do_pending_functors w = do
    let functors = w.loop.pending_functors
    w' ← run_functors functors (record w {
      loop = record w.loop { calling_pending_functors = true; pending_functors = [] };
    })
    ok (record w' { loop = record w'.loop { calling_pending_functors = false } })

  unfoldable pub handle_events : List Event → Worker State T X → Result (Worker State T X)
  handle_events [] w = ok w
  handle_events (e ∷ es) w = do w' ← handle e w; handle_events es w'

  -- `while (!quit_)`, and `looping_ = false` behind it.
  unfoldable pub loop_rounds :
      List (List Event) → Worker State T X → Result (Run (Worker State T X))
  unfolding do_pending_functors handle_events
  loop_rounds [] w =
      if w.loop.quitting
      then ok (stopped (record w { loop = record w.loop { looping = false } }))
      else (do w1 ← do_pending_functors w; ok (blocked w1))
  loop_rounds (events ∷ more) w =
      if w.loop.quitting
      then ok (stopped (record w { loop = record w.loop { looping = false } }))
      else (do w1 ← do_pending_functors w; w2 ← handle_events events w1; loop_rounds more w2)

  unfoldable pub loop : List (List Event) → Worker State T X → Result (Run (Worker State T X))
  unfolding loop_rounds
  loop answers w = do
    check (not w.loop.looping) assertion
    check w.loop.in_loop_thread assertion
    loop_rounds answers (record w { loop = record w.loop { looping = true; quitting = false } })

  -- A quit() in the loop's thread before loop() is lost: loop() does what it would have done
  -- without it.
  pub loop-quit :
      (answers : List (List Event)) (w : Worker State T X)
      → w.loop.in_loop_thread ≡ true
      → loop answers (record w { loop = quit w.loop }) ≡ loop answers w
  unfolding loop quit
  loop-quit answers w h = ground (arith, h)

  -- Each task succeeds and posts tasks to the queue, which it does not run itself.
  abbrev pub Posts : (T → List T) → Type 0
  Posts posts =
      (t : T) (w : Worker State T X)
      → w.loop.calling_pending_functors ≡ true
      → (w' : Worker State T X) × (body t w ≡ ok w')
        × (w'.loop.pending_functors ≡ w.loop.pending_functors ++ posts t)
        × (w'.loop.calling_pending_functors ≡ true)

  unfoldable pub all_posts : (T → List T) → List T → List T
  all_posts posts [] = []
  all_posts posts (t ∷ ts) = posts t ++ all_posts posts ts

  run_functors_lem :
      (posts : T → List T)
      → Posts posts
      → (ts : List T) (w : Worker State T X) → w.loop.calling_pending_functors ≡ true
      → (w' : Worker State T X) × (run_functors ts w ≡ ok w')
        × (w'.loop.pending_functors ≡ w.loop.pending_functors ++ all_posts posts ts)
  unfolding run_functors all_posts
  run_functors_lem posts p [] w h = (w, refl, sym (append-nil w.loop.pending_functors))
  run_functors_lem posts p (t ∷ ts) w h =
      let (w1, ran, queue, calling) = p t w h in
      let (w2, rest, queue') = run_functors_lem posts p ts w1 calling in
      (
        w2,
        ground (arith, ran, rest),
        queue'
            ∙ ap (λ q. q ++ all_posts posts ts) queue
            ∙ append_assoc w.loop.pending_functors (posts t) (all_posts posts ts),
      )

  -- If each task, run while the queue is worked off, succeeds and puts the tasks that it posts at
  -- the end of the queue, then doPendingFunctors succeeds, and what waits after it are the tasks
  -- posted by those that waited before, in the order of their posters, with the flag of the
  -- running queue cleared.
  pub do_pending_functors_lem :
      (posts : T → List T)
      → Posts posts
      → (w : Worker State T X)
      → (w' : Worker State T X) × (do_pending_functors w ≡ ok w')
        × (w'.loop.pending_functors ≡ all_posts posts w.loop.pending_functors)
        × (w'.loop.calling_pending_functors ≡ false)
  unfolding do_pending_functors
  do_pending_functors_lem posts p w =
      let w0 : Worker State T X = record w {
        loop = record w.loop { calling_pending_functors = true; pending_functors = [] };
      } in
      let (w1, ran, queue) = run_functors_lem posts p w.loop.pending_functors w0 refl in
      (
        record w1 { loop = record w1.loop { calling_pending_functors = false } },
        ground (arith, ran),
        queue,
        refl,
      )
