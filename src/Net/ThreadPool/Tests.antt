-- ===== src/Net/ThreadPool/Tests.antt =====
-- Runs of a pool of four threads.
use my_net_core_proxy.Prelude.{◌≡◌, refl, ok}
use my_net_core_proxy.Net.ThreadPool.{new, start, start_loops, get_next_loop, loop_after}

-- The sixth call is the second thread's turn.
sixth_call : loop_after 5 (start (λ i. i) (new 99 4)) ≡ ok 1
unfolding loop_after start start_loops get_next_loop
sixth_call = refl

-- A pool without threads gives the base loop.
no_threads : loop_after 5 (start (λ i. i) (new 99 0)) ≡ ok 99
unfolding loop_after start get_next_loop
no_threads = refl
