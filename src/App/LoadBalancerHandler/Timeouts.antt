-- ===== src/App/LoadBalancerHandler/Timeouts.antt =====
-- app/load_balancer_handler.cpp: which timers wait after a message, a response and the end.
use my_net_core_proxy.Prelude.{
  ◌≡◌, ◌≢◌, refl, sym, ◌∙◌, ap₂, subst, ◌⊎◌, inl, inr, true, false, not, Bool-cases, if◌then◌else◌,
  none, some, Option-cases, ok, fault, overflow, assertion, arith,
}
use my_net_core_proxy.Prelude.Sets.Pairs.{same_pair}
use my_net_core_proxy.Net.EventLoop.{Epoll}
use my_net_core_proxy.Net.EventLoop.Timing.{Timers, Moment, same_id}
use my_net_core_proxy.Net.Timer.{TimerId}
use my_net_core_proxy.Net.TcpConnection.{
  TcpConnection, Environment, State, connected, connecting, dis_connecting, dis_connected, shutdown,
  shutdown_in_loop, destroy,
}
use my_net_core_proxy.App.Backend.{release, on_loop_of}
use my_net_core_proxy.App.LoadBalancerHandler.{
  LoadBalancerHandler, Timeout, on_idle_timeout, idle_delay, refresh, reset_idle_timer, stop_timer,
  on_close,
}

module _ (kernel : Epoll) (front_env back_env : Environment kernel.State)
    (timers : Timers Timeout) where
  open timers use {Queue, IsValid, IsFree, waits}

  -- One timer in place of another, and every other one as before.
  abbrev pub Replaced : TimerId → TimerId → Queue → Queue → Type 0
  Replaced old id q q' =
      (other : TimerId)
      → waits q' other
        ≡ (if same_id id other then true else if same_id old other then false else waits q other)

  abbrev pub watched : LoadBalancerHandler kernel.State Queue → TimerId
  watched r = if not r.first_byte_received then r.initial_timer_id else r.idle_timer_id

  replace_lem :
      (m : Moment) (old : TimerId) (q : Queue)
      → IsValid q
      → IsFree q m.address
      → (q1 : Queue) × (timers.stop old q ≡ ok q1)
        × (((id : TimerId) × (q2 : Queue) × (timers.after m idle_delay on_idle_timeout q1
                ≡ ok (id, q2))
              × IsValid q2
              × ((if same_id old id then false else waits q id) ≡ false)
              × Replaced old id q q2)
            ⊎ (timers.after m idle_delay on_idle_timeout q1 ≡ fault overflow))
  replace_lem m old q v free =
      let (q1, stopped, v1, still, others) = timers.stop_lem old q v in
      (
        q1,
        stopped,
        elim (timers.after_lem m idle_delay on_idle_timeout q1 v1 (still m.address free)) [
          | inr late ↦ inr late
          | inl (id, q2, set, v2, fresh, others2) ↦ inl (
            id,
            q2,
            set,
            v2,
            sym (others id) ∙ fresh,
            λ other. ground (arith, others2 other, others other),
          )
        ],
      )

  pub refresh_lem :
      (m : Moment) (r : LoadBalancerHandler kernel.State Queue)
      → IsValid r.queue
      → IsFree r.queue m.address
      → ((id : TimerId) × (q' : Queue) × (refresh kernel front_env back_env timers m r
            ≡ ok (record r { first_byte_received = true; idle_timer_id = id; queue = q' }))
          × IsValid q'
          × Replaced (watched r) id r.queue q')
        ⊎ (refresh kernel front_env back_env timers m r ≡ fault overflow)
  unfolding refresh reset_idle_timer
  refresh_lem m r v free =
      let (q1, stopped, rest) = replace_lem m (watched r) r.queue v free in
      elim rest [
        | inr late ↦ inr (elim (Bool-cases r.first_byte_received) [
          | inl after ↦ ground (arith, after, stopped, late)
          | inr first ↦ ground (arith, first, stopped, late)
        ])
        | inl (id, q', set, v', _, others) ↦ inl (
          id,
          q',
          elim (Bool-cases r.first_byte_received) [
            | inl after ↦ ground (arith, after, stopped, set)
            | inr first ↦ ground (arith, first, stopped, set)
          ],
          v',
          others,
        )
      ]

  stop_timer_lem :
      (r : LoadBalancerHandler kernel.State Queue)
      → IsValid r.queue
      → (q : Queue) × (stop_timer kernel front_env back_env timers r ≡ ok (record r { queue = q }))
        × IsValid q
        × ((other : TimerId)
            → waits q other ≡ (if same_id (watched r) other then false else waits r.queue other))
  unfolding stop_timer
  stop_timer_lem r v =
      let (q, stopped, v', _, others) = timers.stop_lem (watched r) r.queue v in
      (q, ground (arith, stopped), v', others)

  -- A backend that was shut down fails the destructor's assertion, unless it was disconnected.
  release-shutdown :
      (b : TcpConnection kernel.State) (s : State)
      → b.state ≡ s
      → b.watch.loop.in_loop_thread ≡ true
      → (b' : TcpConnection kernel.State) × (shutdown kernel back_env b ≡ ok b')
        × (((b.state ≢ dis_connected) × (release kernel back_env (some b') ≡ fault assertion))
            ⊎ (release kernel back_env (some b') ≡ ok tt))
  unfolding release destroy shutdown shutdown_in_loop
  release-shutdown b dis_connected e here = (b, ground (arith, here, e), inr (ground (arith, e)))
  release-shutdown b connected e here =
      (record b { state = dis_connecting }, ground (arith, here, e), inl ((λ d. cc), refl))
  release-shutdown b connecting e here =
      (b, ground (arith, here, e), inl ((λ d. cc), ground (arith, e)))
  release-shutdown b dis_connecting e here =
      (b, ground (arith, here, e), inl ((λ d. cc), ground (arith, e)))

  -- With valid timers, in the loop's thread, onClose fails the assertion of the backend's
  -- destructor, the backend being in another state than disconnected, or it succeeds, leaves no
  -- backend and stops, of all timers, the one for the first bytes before they came and the idle
  -- one after.
  pub on_close-Stopped :
      (r : LoadBalancerHandler kernel.State Queue)
      → IsValid r.queue
      → r.frontend.watch.loop.in_loop_thread ≡ true
      → ((b : TcpConnection kernel.State) × (r.backend_conn ≡ some b)
          × (b.state ≢ dis_connected)
          × (on_close kernel front_env back_env timers r ≡ fault assertion))
        ⊎ ((r' : LoadBalancerHandler kernel.State Queue) × (on_close kernel front_env back_env
                timers r
              ≡ ok r')
            × (r'.backend_conn ≡ none)
            × IsValid r'.queue
            × ((other : TimerId)
                → waits r'.queue other
                  ≡ (if same_id (watched r) other then false else waits r.queue other)))
  unfolding on_close
  on_close-Stopped r v here =
      let (q, stopped, v', others) = stop_timer_lem r v in
      elim (Option-cases r.backend_conn) [
        | inl alone ↦
            inr (record r { queue = q }, ground (arith, stopped, alone), alone, v', others)
        | inr (b, has) ↦
            let (b', shut, ends) = release-shutdown (on_loop_of r.frontend b) b.state refl here in
            elim ends [
              | inl (up, asserts) ↦ inl (b, has, up, ground (arith, stopped, has, shut, asserts))
              | inr fine ↦ inr (
                record r { queue = q; backend_conn = none; frontend = on_loop_of b' r.frontend },
                ground (arith, stopped, has, shut, fine),
                refl,
                v',
                others,
              )
            ]
      ]

  same_ids : (a b : TimerId) → same_id a b ≡ true → a ≡ b
  same_ids a b h =
      let (t, s) = same_pair a.timer a.sequence b.timer b.sequence h in
      ap₂ (λ x y. record { timer = x; sequence = y }) t s

  -- With valid timers and a free address, in the loop's thread, before the first bytes of the
  -- client and with the timer for them waiting under another id than the idle one: after
  -- resetIdleTimer, as a response of the backend calls it, onClose fails its assertion or leaves
  -- the idle timer waiting; or the expiration overflows.
  pub on_close-reset_idle_timer :
      (m : Moment) (r : LoadBalancerHandler kernel.State Queue)
      → IsValid r.queue
      → IsFree r.queue m.address
      → r.frontend.watch.loop.in_loop_thread ≡ true
      → r.first_byte_received ≡ false
      → waits r.queue r.initial_timer_id ≡ true
      → same_id r.idle_timer_id r.initial_timer_id ≡ false
      → (reset_idle_timer kernel front_env back_env timers m r ≡ fault overflow)
        ⊎ ((r1 : LoadBalancerHandler kernel.State Queue) × (reset_idle_timer kernel front_env
                back_env timers m r
              ≡ ok r1)
            × ((on_close kernel front_env back_env timers r1 ≡ fault assertion)
                ⊎ ((r2 : LoadBalancerHandler kernel.State Queue) × (on_close kernel front_env
                        back_env timers r1
                      ≡ ok r2)
                    × (waits r2.queue r1.idle_timer_id ≡ true))))
  unfolding reset_idle_timer
  on_close-reset_idle_timer m r v free here first waits_first apart =
      let (q1, stopped, rest) = replace_lem m r.idle_timer_id r.queue v free in
      elim rest [
        | inr late ↦ inl (ground (arith, stopped, late))
        | inl (id, q2, set, v2, fresh, others) ↦
            let r1 : LoadBalancerHandler kernel.State Queue = record r {
              idle_timer_id = id;
              queue = q2;
            } in
            let new_id : same_id r.initial_timer_id id ≡ false =
              elim (Bool-cases (same_id r.initial_timer_id id)) [
                | inr other ↦ other
                | inl same ↦
                    let e : r.initial_timer_id ≡ id = same_ids r.initial_timer_id id same in
                    ground (
                      arith,
                      subst
                          (λ k.
                            (if same_id r.idle_timer_id k then false else waits r.queue k) ≡ false)
                          (sym e) fresh,
                      apart,
                      waits_first,
                    )
              ] in
            inr (
              r1,
              ground (arith, stopped, set),
              elim (on_close-Stopped r1 v2 here) [
                | inl (b, has, up, asserts) ↦ inl asserts
                | inr (r2, closed, _, _, left) ↦
                    inr (r2, closed, ground (arith, left id, others id, new_id, first))
              ],
            )
      ]
