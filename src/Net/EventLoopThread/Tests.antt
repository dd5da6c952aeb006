-- ===== src/Net/EventLoopThread/Tests.antt =====
-- The theorem at a pool of three threads.
use my_net_core_proxy.Prelude.{ℕ, ◌+◌, ◌*◌, ◌≡◌, refl, true, false, some, List, [], ◌∷◌, Result, ok}
use my_net_core_proxy.Net.EventLoop.Rounds.{Worker}
use my_net_core_proxy.Net.EventLoopThread.{
  EventLoopThread, Place, past_test, in_wait, in_functors, new, start_loop, joined, destroy_pool,
}
use my_net_core_proxy.Net.EventLoopThread.Joining.{AllFinished, destroy_pool_lem}

-- A loop with one task that waits, over a counter.
abbrev worker : Worker ℕ ℕ ℕ
worker = record {
  loop = record {
    epoll = 0;
    looping = true;
    quitting = false;
    in_loop_thread = true;
    calling_pending_functors = false;
    pending_functors = 3 ∷ [];
    wakeups = 0;
  };
  rest = 10;
}

-- A task, and an event, is a number that the counter takes in.
abbrev takes : ℕ → Worker ℕ ℕ ℕ → Result (Worker ℕ ℕ ℕ)
takes n w = ok (record w { rest = w.rest * 10 + n })

abbrev thread : Place ℕ ℕ → EventLoopThread ℕ ℕ ℕ ℕ
thread place = record { loop_ptr = some worker; place = place; joinable = true; exiting = false }

started : (start_loop worker in_wait new).1 ≡ thread in_wait
unfolding start_loop
started = refl

-- One thread has two functors to call, one stands in epoll_wait, and one has passed its test with the
-- task 3 in its queue.
abbrev pool : List (EventLoopThread ℕ ℕ ℕ ℕ)
pool = thread (in_functors (6 ∷ 7 ∷ [])) ∷ thread in_wait ∷ thread past_test ∷ []

destroy_pool_lem_example :
    (ts' : List (EventLoopThread ℕ ℕ ℕ ℕ)) × (destroy_pool takes takes ((5 ∷ []) ∷ []) pool
      ≡ ok (joined ts'))
    × AllFinished takes takes ((5 ∷ []) ∷ []) pool ts'
destroy_pool_lem_example =
    destroy_pool_lem takes takes ((5 ∷ []) ∷ []) pool
      (λ t w h. (record w { rest = w.rest * 10 + t }, refl, h))
      (λ e w h. (record w { rest = w.rest * 10 + e }, refl, h))
      ((worker, refl, tt, refl), ((worker, refl, tt, refl), ((worker, refl, tt, refl), tt)))
