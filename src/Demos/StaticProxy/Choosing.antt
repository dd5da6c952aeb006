-- ===== src/Demos/StaticProxy/Choosing.antt =====
-- demos/static_proxy_server.cpp with app/health_checker.cpp and app/load_balancer.cpp: which backend is
-- chosen after the first round of probes.
use my_net_core_proxy.Prelude.{
  ℕ, ◌+◌, ◌^◌, ◌≡◌, ◌<◌, refl, sym, ◌∙◌, ap, ◌||◌, ◌⊎◌, inl, inr, Bool, true, false, none, some, [],
  ok, arith,
}
use my_net_core_proxy.Prelude.Keys.{Key}
use my_net_core_proxy.Prelude.Pairs.{pair_key}
use my_net_core_proxy.Prelude.Sets.{contains}
use my_net_core_proxy.Prelude.Sets.Order.{Ascending, contains-set_insert}
use my_net_core_proxy.Net.Acceptor.{Fd}
use my_net_core_proxy.Net.EventLoop.{Epoll}
use my_net_core_proxy.Net.EventLoop.Creation.{OwnLoop}
use my_net_core_proxy.Net.EventLoop.Timing.{Moment, queue_timers, run_every, id_waits}
use my_net_core_proxy.Net.InetAddress
use my_net_core_proxy.Net.InetAddress.{InetAddress, InetText}
use my_net_core_proxy.Net.InetAddress.Order.{address_key}
use my_net_core_proxy.Net.Server.Callbacks.{unset, set_handler_factory}
use my_net_core_proxy.Net.Server.Dispatch
use my_net_core_proxy.Net.TcpConnection.{Task}
use my_net_core_proxy.Net.TimerQueue
use my_net_core_proxy.Net.TimerQueue.{TimerQueue}
use my_net_core_proxy.Net.TimerQueue.Invariant.{empty-Inv}
use my_net_core_proxy.Net.TimerQueue.Steps.{add_timer-Inv}
use my_net_core_proxy.Net.Timestamp.{add_time}
use my_net_core_proxy.App.LoadBalancer
use my_net_core_proxy.App.LoadBalancer.{
  LoadBalancer, add_backend, get_all_backends, get_next_backend,
}
use my_net_core_proxy.App.LoadBalancer.Configured.{new_lem, contains-add_backend, add_backend-Inv}
use my_net_core_proxy.App.LoadBalancer.Health.{Inv}
use my_net_core_proxy.App.HealthChecker
use my_net_core_proxy.App.HealthChecker.{
  Check, checks_backends, Dial, HealthChecker, check_backends,
}
use my_net_core_proxy.App.HealthChecker.Round.{Answers, connects, get_next_backend-check_backends}
use my_net_core_proxy.Demos.StaticProxy.{
  Gateway, any_address, local_backend, backends, interval, set_up,
}

module _ (text : InetText) where
  instance abbrev key : Key InetAddress
  key = address_key text

  -- One of the three backends.
  unfoldable pub is_backend : InetAddress → Bool
  is_backend a =
      InetAddress.eq text (local_backend text 8001) a
      || (InetAddress.eq text (local_backend text 8002) a
          || InetAddress.eq text (local_backend text 8003) a)

  backends_lem :
      Inv (backends text)
      × ((backends text).healthy_backends ≡ [])
      × ((a : InetAddress) → contains (get_all_backends (backends text)) a ≡ is_backend a)
  unfolding backends is_backend
  backends_lem =
      let (new_valid, nothing, no_backend) = new_lem {A = InetAddress} in
      let lb1 : LoadBalancer InetAddress = add_backend LoadBalancer.new (local_backend text 8001) in
      let lb2 : LoadBalancer InetAddress = add_backend lb1 (local_backend text 8002) in
      let (v1, h1) = add_backend-Inv (local_backend text 8001) new_valid in
      let (v2, h2) = add_backend-Inv (local_backend text 8002) v1 in
      let (v3, h3) = add_backend-Inv (local_backend text 8003) v2 in
      let o1 : Ascending (get_all_backends lb1) =
        (contains-add_backend LoadBalancer.new (local_backend text 8001) (local_backend text 8001)
          nothing).0 in
      let o2 : Ascending (get_all_backends lb2) =
        (contains-add_backend lb1 (local_backend text 8002) (local_backend text 8002) o1).0 in
      (
        v3,
        h3 ∙ h2 ∙ h1,
        λ a. ground (
          arith,
          (contains-add_backend LoadBalancer.new (local_backend text 8001) a nothing).1,
          (contains-add_backend lb1 (local_backend text 8002) a o1).1,
          (contains-add_backend lb2 (local_backend text 8003) a o2).1,
          no_backend a,
        ),
      )

  -- The checker of main(), as it is when the loop runs.
  abbrev pub checker :
      {St L : Type 0}
      → Gateway L St Task
      → HealthChecker InetAddress St (TimerQueue (Check InetAddress))
  checker g = record {
    loop = g.dispatcher.acceptor.listen_channel.loop;
    load_balancer = g.load_balancer;
    queue = g.timer_queue;
    closed = [];
  }

  -- For a loop with an empty timer queue, a clock whose next 3 seconds do not overflow, and dials
  -- that leave no connection in progress and treat equal addresses alike: main() of the static
  -- proxy sets up with its check timer waiting, the first round of probes succeeds, and then
  -- getNextBackend either refuses, and none of the three backends connected, or returns one of
  -- the three, which connected.
  pub set_up-check_backends :
      (kernel : Epoll) {L : Type 0} (start_loop : ℕ → L) (base : L) (idle socket : Fd)
      (bound listens : Bool) (m : Moment) (made : OwnLoop kernel.State Task (Check InetAddress))
      (answers : InetAddress → Dial × Moment)
      → made.timer_queue ≡ TimerQueue.empty
      → m.now + 3000000 < 2 ^ 63
      → Answers answers
      → (g : Gateway L kernel.State Task) × (h : HealthChecker InetAddress kernel.State
          (TimerQueue (Check InetAddress)))
        × (set_up text kernel start_loop base idle socket bound listens m made ≡ ok g)
        × (id_waits g.timer_queue g.check_timer ≡ true)
        × (check_backends kernel (queue_timers (Check InetAddress)) answers (checker g)
            ≡ ok ([], h))
        × (((get_next_backend h.load_balancer ≡ ok (none, h.load_balancer))
              × (connects (answers (local_backend text 8001)).0 ≡ false)
              × (connects (answers (local_backend text 8002)).0 ≡ false)
              × (connects (answers (local_backend text 8003)).0 ≡ false))
            ⊎ ((a : InetAddress) × (lb' : LoadBalancer InetAddress) × (get_next_backend
                    h.load_balancer
                  ≡ ok (some a, lb'))
                × (is_backend a ≡ true)
                × (connects (answers a).0 ≡ true)))
  unfolding set_up HealthChecker.start run_every add_time is_backend
  set_up-check_backends kernel {L = L} start_loop base idle socket bound listens m made answers
        fresh soon s =
      let (id, q, added, _, active, _) =
        add_timer-Inv TimerQueue.empty [] m.clock m.address checks_backends (m.now + 3000000)
          interval empty-Inv refl in
      let started : HealthChecker.start m interval made.timer_queue ≡ ok (id, q) =
        ground (arith, fresh, soon, added) in
      let g : Gateway L kernel.State Task = record {
        load_balancer = backends text;
        check_timer = id;
        timer_queue = q;
        dispatcher =
            Dispatch.start kernel start_loop bound listens
              (Dispatch.new base made.loop (InetAddress.new text any_address 8080) idle socket);
        server = set_handler_factory true unset;
      } in
      let (valid, none_healthy, listed) = backends_lem in
      let (h, done, chosen) =
        get_next_backend-check_backends kernel (queue_timers (Check InetAddress)) answers
          (checker g) s valid none_healthy in
      (
        g,
        h,
        ground (arith, started),
        (ap (λ l. contains l (id.timer, id.sequence)) active
            ∙ contains-set_insert (id.timer, id.sequence) (id.timer, id.sequence) []
            ∙ ground (arith, pair_key.eq_refl (id.timer, id.sequence))),
        done,
        elim chosen [
          | inl (nobody, closed) ↦ inl (
            nobody,
            closed (local_backend text 8001) (
                listed (local_backend text 8001)
                ∙ ground (arith, key.eq_refl (local_backend text 8001))),
            closed (local_backend text 8002) (
                listed (local_backend text 8002)
                ∙ ground (arith, key.eq_refl (local_backend text 8002))),
            closed (local_backend text 8003) (
                listed (local_backend text 8003)
                ∙ ground (arith, key.eq_refl (local_backend text 8003))),
          )
          | inr (a, lb, picked, configured, up) ↦
              inr (a, lb, picked, sym (listed a) ∙ configured, up)
        ],
      )
