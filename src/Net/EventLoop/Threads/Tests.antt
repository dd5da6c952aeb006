-- ===== src/Net/EventLoop/Threads/Tests.antt =====
-- Interleavings of the loop with other threads, and each theorem at one of them.
use my_net_core_proxy.Prelude.{ℕ, ◌≡◌, refl, true, false, some, none, List, [], ◌∷◌, ◌++◌}
use my_net_core_proxy.Net.EventLoop.{EventLoop, wakeup, enqueue, runs_now}
use my_net_core_proxy.Net.EventLoop.Threads.{
  Threads, Action, running, polling, ended, takes, leaves, functor_posts, functor_quits,
  functor_returns, polls, woken, reads, handled, pushes, sets_quit, writes, post, own, act, acts,
  enter,
}
use my_net_core_proxy.Net.EventLoop.Threads.Wakeup.{acts-woken}
use my_net_core_proxy.Net.EventLoop.Threads.Quitting.{
  functor_quits_in, all_return, acts-leaves, functor_quits-woken,
}
use my_net_core_proxy.Net.EventLoop.Threads.Order.{all_posted, taken, executed-acts}

-- Task 1 waits when loop() is called.
abbrev fresh : EventLoop ℕ ℕ
fresh = record {
  epoll = 0;
  looping = false;
  quitting = false;
  in_loop_thread = true;
  calling_pending_functors = false;
  pending_functors = 1 ∷ [];
  wakeups = 0;
}

-- Task 1 posts task 3; other threads post 2 while it runs and 4 while the loop sleeps.
abbrev crowd : List (Action ℕ)
crowd =
    takes ∷ pushes 2 ∷ functor_posts 3 ∷ functor_returns ∷ polls ∷ pushes 4 ∷ writes ∷ writes ∷ []

abbrev asleep : Threads ℕ ℕ
asleep = record {
  loop = record fresh { looping = true; pending_functors = 2 ∷ 3 ∷ 4 ∷ []; wakeups = 3 };
  phase = polling;
  waking = 0;
  executed = 1 ∷ [];
}

acts-crowd : acts crowd (enter fresh) ≡ some asleep
unfolding acts act own enter post runs_now enqueue wakeup
acts-crowd = refl

acts-woken_example :
    acts (woken ∷ reads ∷ handled ∷ takes ∷ []) asleep
    ≡ some (record asleep {
      loop = record asleep.loop {
        wakeups = 0;
        calling_pending_functors = true;
        pending_functors = [];
      };
      phase = running (2 ∷ 3 ∷ 4 ∷ []);
    })
acts-woken_example =
    acts-woken fresh crowd asleep 2 (3 ∷ 4 ∷ []) refl refl acts-crowd refl refl refl refl

executed-acts_example :
    asleep.executed ++ taken asleep.phase ++ asleep.loop.pending_functors
    ≡ fresh.pending_functors ++ all_posted crowd
executed-acts_example = executed-acts fresh crowd asleep refl refl acts-crowd

abbrev told : Threads ℕ ℕ
told = record asleep { loop = record asleep.loop { quitting = true; wakeups = 4 } }

abbrev quit_crowd : List (Action ℕ)
quit_crowd = crowd ++ sets_quit ∷ writes ∷ []

acts-quit_crowd : acts quit_crowd (enter fresh) ≡ some told
unfolding acts act own enter post runs_now enqueue wakeup
acts-quit_crowd = refl

acts-leaves_example :
    acts (woken ∷ reads ∷ handled ∷ leaves ∷ []) told
    ≡ some (record told { loop = record told.loop { wakeups = 0; looping = false }; phase = ended })
unfolding functor_quits_in
acts-leaves_example =
    acts-leaves fresh quit_crowd told refl refl refl acts-quit_crowd refl refl refl

functor_quits-woken_example :
    (s : Threads ℕ ℕ) × (acts (takes ∷ functor_quits ∷ functor_returns ∷ polls ∷ []) (enter fresh)
      ≡ some s)
    × (s.phase ≡ polling)
    × (s.loop.quitting ≡ true)
    × (act woken s ≡ none)
unfolding all_return
functor_quits-woken_example = functor_quits-woken fresh 1 [] refl refl refl
