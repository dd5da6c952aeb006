-- ===== src/Net/TimerQueue/Remaining.antt =====
-- net/timer_queue.cpp: the time that the descriptor is set to.
use my_net_core_proxy.Prelude.{ℕ, ◌+◌, ◌*◌, ◌≤◌, ◌<◌, ◌≡◌, ◌⊎◌, arith}
use my_net_core_proxy.Net.TimerQueue.{how_much_time_from_now}

-- The nanoseconds that the descriptor is set to stay below a second; with the seconds they are a
-- tenth of a millisecond at least and never end before the expiration, and they end at it exactly
-- unless they are that least time.
pub how_much_time_from_now_lem :
    (when now : ℕ)
    → ((how_much_time_from_now when now).tv_nsec < 1000000000)
      × (100000
          ≤ (how_much_time_from_now when now).tv_sec * 1000000000
            + (how_much_time_from_now when now).tv_nsec)
      × (when * 1000
          ≤ now * 1000
            + ((how_much_time_from_now when now).tv_sec * 1000000000
                + (how_much_time_from_now when now).tv_nsec))
      × (((how_much_time_from_now when now).tv_sec * 1000000000
              + (how_much_time_from_now when now).tv_nsec
            ≤ 100000)
          ⊎ ((how_much_time_from_now when now).tv_sec * 1000000000
                + (how_much_time_from_now when now).tv_nsec
                + now * 1000
              ≡ when * 1000))
unfolding how_much_time_from_now
how_much_time_from_now_lem when now = ground arith
