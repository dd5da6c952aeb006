-- ===== src/App/HealthChecker/Probes.antt =====
-- app/health_checker.cpp: how the two callbacks of a probe end it.
use my_net_core_proxy.Prelude.{
  ◌≡◌, refl, ◌∙◌, ap, not, ◌&&◌, true, false, if◌then◌else◌, [], ◌∷◌, ◌++◌, append_assoc, ok, arith,
}
use my_net_core_proxy.Prelude.Keys.{Key}
use my_net_core_proxy.Net.Channel.{Channel, is_writing, is_none_event, drop_all, set_index, negsuc}
use my_net_core_proxy.Net.EventLoop.{
  Epoll, EventLoop, remove_channel, update_channel, is_minus_one, delete,
}
use my_net_core_proxy.Net.EventLoop.Registration.{update_channel_lem}
use my_net_core_proxy.Net.EventLoop.Timing.{Timers}
use my_net_core_proxy.Net.EventLoop.Watch.{disable_all, remove, update}
use my_net_core_proxy.Net.TcpConnection.{Task}
use my_net_core_proxy.Net.TcpConnection.Io.{SoError}
use my_net_core_proxy.App.LoadBalancer.{update_health_status}
use my_net_core_proxy.App.HealthChecker.{
  Check, Probe, HealthChecker, report, close, finish, time_out, succeeded, write_ready,
}

module _ (kernel : Epoll) {A : Type 0} ⦃k : Key A⦄ (timers : Timers (Check A)) where
  -- The probe has ended: its channel is silent, in a loop that runs in this thread.
  finish_lem :
      (p : Probe A) (h : HealthChecker A kernel.State timers.Queue)
      → h.loop.in_loop_thread ≡ true
      → (channel' : Channel) × (loop' : EventLoop kernel.State Task) × (finish kernel timers p h
          ≡ ok (
            record p { channel = channel' },
            record h { loop = loop'; closed = h.closed ++ p.sockfd ∷ [] },
          ))
        × (is_writing channel' ≡ false)
        × (loop'.in_loop_thread ≡ true)
  unfolding finish close disable_all remove remove_channel is_none_event is_writing drop_all update
      set_index
  finish_lem p h here =
      let c1 : Channel = drop_all p.channel in
      let l1 : EventLoop kernel.State Task = update_channel kernel h.loop c1 in
      let (_, _, same) = update_channel_lem kernel h.loop c1 in
      let kept : l1.in_loop_thread ≡ true = ap (λ l. l.in_loop_thread) same ∙ here in
      (
        set_index c1 (negsuc 0),
        record l1 {
          epoll =
              if l1.looping && not (is_minus_one c1.index)
              then (kernel.ctl l1.epoll delete c1.fd 0).0
              else l1.epoll;
        },
        ground (arith, kept),
        refl,
        kept,
      )

  -- With valid timers, in the loop's thread, the write callback of a probe reports what the
  -- connection came to, stops the timer and closes the socket once, and the timer's callback does
  -- nothing after it.
  pub time_out-write_ready :
      (answer : SoError) (p : Probe A) (h : HealthChecker A kernel.State timers.Queue)
      → timers.IsValid h.queue
      → h.loop.in_loop_thread ≡ true
      → (p' : Probe A) × (h' : HealthChecker A kernel.State timers.Queue) × (write_ready kernel
            timers answer p h
          ≡ ok (p', h'))
        × (h'.closed ≡ h.closed ++ p.sockfd ∷ [])
        × (h'.load_balancer ≡ update_health_status h.load_balancer p.addr (succeeded answer))
        × (timers.waits h'.queue p.timer_id ≡ false)
        × (time_out kernel timers p' h' ≡ ok (p', h'))
  unfolding write_ready time_out report
  time_out-write_ready answer p h v here =
      let (q, stopped, _, _, others) = timers.stop_lem p.timer_id h.queue v in
      let h1 : HealthChecker A kernel.State timers.Queue = record h {
        queue = q;
        load_balancer = update_health_status h.load_balancer p.addr (succeeded answer);
      } in
      let (channel', loop', ended, silent, _) = finish_lem p h1 here in
      (
        record p { channel = channel' },
        record h1 { loop = loop'; closed = h.closed ++ p.sockfd ∷ [] },
        ground (arith, stopped, ended),
        refl,
        refl,
        ground (arith, others p.timer_id),
        ground (arith, silent),
      )

  -- With valid timers, in the loop's thread, for a probe whose channel watches writing: the
  -- timer's callback and then the write callback, as one round of events may bring them, succeed
  -- and close the socket twice.
  pub write_ready-time_out :
      (answer : SoError) (p : Probe A) (h : HealthChecker A kernel.State timers.Queue)
      → timers.IsValid h.queue
      → h.loop.in_loop_thread ≡ true
      → is_writing p.channel ≡ true
      → (p1 p2 : Probe A) × (h1 h2 : HealthChecker A kernel.State timers.Queue) × (time_out kernel
            timers p h
          ≡ ok (p1, h1))
        × (write_ready kernel timers answer p1 h1 ≡ ok (p2, h2))
        × (h2.closed ≡ h.closed ++ p.sockfd ∷ p.sockfd ∷ [])
  unfolding write_ready time_out report
  write_ready-time_out answer p h v here waiting =
      let h0 : HealthChecker A kernel.State timers.Queue = record h {
        load_balancer = update_health_status h.load_balancer p.addr false;
      } in
      let (channel', loop', ended, _, here') = finish_lem p h0 here in
      let p1 : Probe A = record p { channel = channel' } in
      let h1 : HealthChecker A kernel.State timers.Queue = record h0 {
        loop = loop';
        closed = h.closed ++ p.sockfd ∷ [];
      } in
      let (p2, h2, ready, twice, _, _, _) = time_out-write_ready answer p1 h1 v here' in
      (
        p1,
        p2,
        h1,
        h2,
        ground (arith, waiting, ended),
        ready,
        twice ∙ append_assoc h.closed (p.sockfd ∷ []) (p.sockfd ∷ []),
      )
