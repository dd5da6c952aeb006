-- ===== src/Demos/StaticProxy/Tests.antt =====
-- The gateway where the second backend alone answers.
use my_net_core_proxy.Prelude.{
  ℕ, ◌≡◌, refl, ◌⊎◌, inl, inr, true, false, none, some, [], ok, arith, if◌then◌else◌, Bool-cases,
}
use my_net_core_proxy.Prelude.Keys.{Key}
use my_net_core_proxy.Net.Channel
use my_net_core_proxy.Net.EventLoop.Creation.{OwnLoop}
use my_net_core_proxy.Net.EventLoop.Table.{State, table}
use my_net_core_proxy.Net.EventLoop.Timing.{Moment, queue_timers, id_waits}
use my_net_core_proxy.Net.InetAddress
use my_net_core_proxy.Net.InetAddress.{InetAddress}
use my_net_core_proxy.Net.InetAddress.Order.{address_key}
use my_net_core_proxy.Net.TcpConnection.{Task}
use my_net_core_proxy.Net.TimerQueue
use my_net_core_proxy.Net.TimerQueue.{TimerQueue}
use my_net_core_proxy.App.Backend.Samples.{here, texts}
use my_net_core_proxy.App.LoadBalancer.{LoadBalancer, get_next_backend}
use my_net_core_proxy.App.HealthChecker.{
  Check, Dial, at_once, refused, HealthChecker, check_backends,
}
use my_net_core_proxy.App.HealthChecker.Round.{Answers, Settled, connects}
use my_net_core_proxy.Demos.StaticProxy.{Gateway, local_backend, set_up}
use my_net_core_proxy.Demos.StaticProxy.Choosing.{checker, is_backend, set_up-check_backends}

instance abbrev key : Key InetAddress
key = address_key texts

abbrev moment : Moment
moment = record { now = 1000; clock = 1001; address = 64 }

abbrev dial : InetAddress → Dial
dial a = if InetAddress.eq texts (local_backend texts 8002) a then at_once 9 else refused 9

abbrev answers : InetAddress → Dial × Moment
answers a = (dial a, moment)

answers-Answers : Answers answers
answers-Answers = record {
  settled = λ a. each a;
  congr = λ a b e. ground (
    arith,
    e,
    key.eq_sym a b,
    key.eq_trans (local_backend texts 8002) a b,
    key.eq_trans (local_backend texts 8002) b a,
  );
}
  where
    each : (a : InetAddress) → Settled (dial a)
    each a = elim (Bool-cases (InetAddress.eq texts (local_backend texts 8002) a)) [
      | inl e ↦ rw e tt
      | inr e ↦ rw e tt
    ]

abbrev main_loop : OwnLoop State Task (Check InetAddress)
main_loop = record {
  loop = here;
  timer_queue = TimerQueue.empty;
  timerfd_channel = Channel.new 3;
  wakeup_channel = Channel.new 4;
}

set_up-check_backends_example :
    (g : Gateway ℕ State Task) × (h : HealthChecker InetAddress State
      (TimerQueue (Check InetAddress)))
    × (set_up texts table (λ i. i) 99 (some 5) (some 6) true true moment main_loop ≡ ok g)
    × (id_waits g.timer_queue g.check_timer ≡ true)
    × (check_backends table (queue_timers (Check InetAddress)) answers (checker texts g)
        ≡ ok ([], h))
    × (((get_next_backend h.load_balancer ≡ ok (none, h.load_balancer))
          × (connects (answers (local_backend texts 8001)).0 ≡ false)
          × (connects (answers (local_backend texts 8002)).0 ≡ false)
          × (connects (answers (local_backend texts 8003)).0 ≡ false))
        ⊎ ((a : InetAddress) × (lb' : LoadBalancer InetAddress) × (get_next_backend h.load_balancer
              ≡ ok (some a, lb'))
            × (is_backend texts a ≡ true)
            × (connects (answers a).0 ≡ true)))
set_up-check_backends_example =
    set_up-check_backends texts table (λ i. i) 99 (some 5) (some 6) true true moment main_loop
      answers refl (omega arith) answers-Answers
