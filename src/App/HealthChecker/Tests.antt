-- ===== src/App/HealthChecker/Tests.antt =====
-- Each theorem on the probes at a concrete one, with a timer queue.
use my_net_core_proxy.Prelude.{ℕ, ◌≡◌, refl, true, false, [], ◌∷◌, ok}
use my_net_core_proxy.Prelude.Pairs.{pair_key}
use my_net_core_proxy.Net.Channel.{negsuc, is_writing}
use my_net_core_proxy.Net.EventLoop.Table.{State, table}
use my_net_core_proxy.Net.EventLoop.Timing.{Timers, queue_timers}
use my_net_core_proxy.Net.TimerQueue
use my_net_core_proxy.Net.TimerQueue.{TimerQueue}
use my_net_core_proxy.Net.TimerQueue.Invariant.{empty-Inv}
use my_net_core_proxy.Net.TcpConnection.Io.{so_error}
use my_net_core_proxy.App.Backend.Samples.{here}
use my_net_core_proxy.App.LoadBalancer
use my_net_core_proxy.App.LoadBalancer.{LoadBalancer, update_health_status}
use my_net_core_proxy.App.HealthChecker.{
  Check, Probe, HealthChecker, succeeded, time_out, write_ready,
}
use my_net_core_proxy.App.HealthChecker.Probes.{time_out-write_ready, write_ready-time_out}

-- An address and a port.
abbrev Address : Type 0
Address = ℕ × ℕ

abbrev probe_timers : Timers (Check Address)
probe_timers = queue_timers (Check Address)

abbrev checker : HealthChecker Address State (TimerQueue (Check Address))
checker = record {
  loop = here;
  load_balancer = LoadBalancer.new;
  queue = TimerQueue.empty;
  closed = [];
}

-- The connection to the backend is in progress on the descriptor 9.
abbrev waiting : Probe Address
waiting = record {
  channel = record { fd = 9; events = 4; revents = 0; index = negsuc 0 };
  addr = (1, 80);
  sockfd = 9;
  timer_id = record { timer = 64; sequence = 0 };
}

time_out-write_ready_example :
    (p' : Probe Address) × (h' : HealthChecker Address State (TimerQueue (Check Address)))
    × (write_ready table probe_timers (so_error 0) waiting checker ≡ ok (p', h'))
    × (h'.closed ≡ 9 ∷ [])
    × (h'.load_balancer ≡ update_health_status LoadBalancer.new (1, 80) true)
    × (probe_timers.waits h'.queue waiting.timer_id ≡ false)
    × (time_out table probe_timers p' h' ≡ ok (p', h'))
unfolding succeeded
time_out-write_ready_example =
    time_out-write_ready table probe_timers (so_error 0) waiting checker empty-Inv refl

write_ready-time_out_example :
    (p1 p2 : Probe Address) × (h1 h2 : HealthChecker Address State (TimerQueue (Check Address)))
    × (time_out table probe_timers waiting checker ≡ ok (p1, h1))
    × (write_ready table probe_timers (so_error 0) p1 h1 ≡ ok (p2, h2))
    × (h2.closed ≡ 9 ∷ 9 ∷ [])
unfolding is_writing
write_ready-time_out_example =
    write_ready-time_out table probe_timers (so_error 0) waiting checker empty-Inv refl refl
