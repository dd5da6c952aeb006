-- ===== src/App/HealthChecker/Round.antt =====
-- app/health_checker.cpp: a round of probes that the connect calls settle at once.
use my_net_core_proxy.Prelude.{
  ◌≡◌, refl, ◌∙◌, Bool, true, false, ◌&&◌, if◌then◌else◌, none, some, List, [], ◌∷◌, ok, arith, ◌⊎◌,
  inl, inr,
}
use my_net_core_proxy.Prelude.Keys.{Key}
use my_net_core_proxy.Prelude.Sets.{contains}
use my_net_core_proxy.Net.EventLoop.{Epoll}
use my_net_core_proxy.Net.EventLoop.Timing.{Timers, Moment}
use my_net_core_proxy.App.LoadBalancer.{LoadBalancer, get_all_backends, get_next_backend}
use my_net_core_proxy.App.LoadBalancer.Safety.{get_next_backend-Inv}
use my_net_core_proxy.App.LoadBalancer.Configured.{all_backends-update}
use my_net_core_proxy.App.LoadBalancer.Health.{
  Inv, contains-update_health_status, update_health_status-Inv,
}
use my_net_core_proxy.App.HealthChecker.{
  Check, Dial, no_socket, at_once, in_progress, refused, HealthChecker, report, close, probe,
  probe_all, check_backends,
}

-- What a dial says of a backend that was healthy, or not, before it.
unfoldable pub verdict : Dial → Bool → Bool
verdict no_socket before = before
verdict (at_once sockfd) before = true
verdict (in_progress sockfd) before = before
verdict (refused sockfd) before = false

verdict-verdict : (d : Dial) (before : Bool) → verdict d (verdict d before) ≡ verdict d before
unfolding verdict
verdict-verdict d before = ground arith

-- No connection is left in progress.
abbrev pub Settled : Dial → Type 0
Settled (in_progress sockfd) = ⊥
Settled d = Unit

module _ {A : Type 0} ⦃k : Key A⦄ where
  -- Each dial of a list is settled, and equal keys are dialled alike.
  pub record Answers (answers : A → Dial × Moment) : Type 0 where
    pub settled : (a : A) → Settled (answers a).0
    pub congr : (a b : A) → k.eq a b ≡ true → (answers a).0 ≡ (answers b).0

  -- Whether `b` is healthy after the round over `backends`.
  unfoldable pub healthy_after : (A → Dial × Moment) → List A → LoadBalancer A → A → Bool
  unfolding verdict
  healthy_after answers backends lb b =
      if contains backends b
      then verdict (answers b).0 (contains lb.healthy_backends b)
      else contains lb.healthy_backends b

module _ (kernel : Epoll) {A : Type 0} ⦃k : Key A⦄ (timers : Timers (Check A)) where
  abbrev Checker : Type 0
  Checker = HealthChecker A kernel.State timers.Queue

  probe_lem :
      (addr : A) (d : Dial) (m : Moment) (h : Checker)
      → Settled d
      → Inv h.load_balancer
      → (h' : Checker) × (probe kernel timers addr d m h ≡ ok (none, h'))
        × Inv h'.load_balancer
        × (get_all_backends h'.load_balancer ≡ get_all_backends h.load_balancer)
        × ((b : A)
            → contains h'.load_balancer.healthy_backends b ≡ (
                if k.eq addr b
                then verdict d (contains h.load_balancer.healthy_backends b)
                else contains h.load_balancer.healthy_backends b))
  unfolding probe report close verdict
  probe_lem addr no_socket m h s v = (h, refl, v, refl, λ b. ground arith)
  probe_lem addr (at_once sockfd) m h s v = (
    close kernel timers sockfd (report kernel timers addr true h),
    refl,
    update_health_status-Inv addr true v,
    all_backends-update h.load_balancer addr true,
    λ b. contains-update_health_status h.load_balancer addr b true v.distinct,
  )
  probe_lem addr (in_progress sockfd) m h s v = absurd s
  probe_lem addr (refused sockfd) m h s v = (
    close kernel timers sockfd (report kernel timers addr false h),
    refl,
    update_health_status-Inv addr false v,
    all_backends-update h.load_balancer addr false,
    λ b. contains-update_health_status h.load_balancer addr b false v.distinct,
  )

  probe_all_lem :
      (answers : A → Dial × Moment) (backends : List A) (h : Checker)
      → Answers answers
      → Inv h.load_balancer
      → (h' : Checker) × (probe_all kernel timers answers backends h ≡ ok ([], h'))
        × Inv h'.load_balancer
        × (get_all_backends h'.load_balancer ≡ get_all_backends h.load_balancer)
        × ((b : A)
            → contains h'.load_balancer.healthy_backends b
              ≡ healthy_after answers backends h.load_balancer b)
  unfolding probe_all healthy_after contains
  probe_all_lem answers [] h s v = (h, refl, v, refl, λ b. refl)
  probe_all_lem answers (addr ∷ backends) h s v =
      let (h1, e1, v1, all1, says1) =
        probe_lem addr (answers addr).0 (answers addr).1 h (s.settled addr) v in
      let (h2, e2, v2, all2, says2) = probe_all_lem answers backends h1 s v1 in
      (
        h2,
        ground (arith, e1, e2),
        v2,
        all2 ∙ all1,
        λ b. ground (
          arith,
          says1 b,
          says2 b,
          s.congr addr b,
          verdict-verdict (answers b).0 (contains h.load_balancer.healthy_backends b),
        ),
      )

  -- A round of probes succeeds with none left in progress, keeps the backends and the invariant, and
  -- leaves healthy what the answers say.
  pub check_backends_lem :
      (answers : A → Dial × Moment) (h : Checker)
      → Answers answers
      → Inv h.load_balancer
      → (h' : Checker) × (check_backends kernel timers answers h ≡ ok ([], h'))
        × Inv h'.load_balancer
        × (get_all_backends h'.load_balancer ≡ get_all_backends h.load_balancer)
        × ((b : A)
            → contains h'.load_balancer.healthy_backends b
              ≡ healthy_after answers (get_all_backends h.load_balancer) h.load_balancer b)
  unfolding check_backends
  check_backends_lem answers h s v = probe_all_lem answers (get_all_backends h.load_balancer) h s v

-- Whether a dial connected at once.
unfoldable pub connects : Dial → Bool
connects (at_once sockfd) = true
connects d = false

module _ (kernel : Epoll) {A : Type 0} ⦃k : Key A⦄ (timers : Timers (Check A)) where
  healthy_after_first :
      (answers : A → Dial × Moment) (backends : List A) (lb : LoadBalancer A) (b : A)
      → Answers answers
      → lb.healthy_backends ≡ []
      → healthy_after answers backends lb b ≡ (contains backends b && connects (answers b).0)
  unfolding healthy_after contains verdict connects
  healthy_after_first answers backends lb b s e = ground (arith, e, s.settled b)

  -- After a first round, getNextBackend refuses, and none has connected, or returns one that has.
  pub get_next_backend-check_backends :
      (answers : A → Dial × Moment) (h : Checker kernel timers)
      → Answers answers
      → Inv h.load_balancer
      → h.load_balancer.healthy_backends ≡ []
      → (h' : Checker kernel timers) × (check_backends kernel timers answers h ≡ ok ([], h'))
        × (((get_next_backend h'.load_balancer ≡ ok (none, h'.load_balancer))
              × ((b : A)
                  → contains (get_all_backends h.load_balancer) b ≡ true
                  → connects (answers b).0 ≡ false))
            ⊎ ((a : A) × (lb' : LoadBalancer A) × (get_next_backend h'.load_balancer
                  ≡ ok (some a, lb'))
                × (contains (get_all_backends h.load_balancer) a ≡ true)
                × (connects (answers a).0 ≡ true)))
  unfolding contains
  get_next_backend-check_backends answers h s v e =
      let (h', done, v', _, says) = check_backends_lem kernel timers answers h s v in
      let after : (b : A)
          → contains h'.load_balancer.healthy_backends b
            ≡ (contains (get_all_backends h.load_balancer) b && connects (answers b).0) =
        λ b.
          says b
          ∙ healthy_after_first answers (get_all_backends h.load_balancer) h.load_balancer b s e in
      (
        h',
        done,
        elim (get_next_backend-Inv h'.load_balancer v') [
          | inl (none_left, out) ↦ inl (out, λ b c. ground (arith, after b, none_left, c))
          | inr (a, lb', out, is_healthy, _, _) ↦ inr (
            a,
            lb',
            out,
            ground (arith, after a, is_healthy),
            ground (arith, after a, is_healthy),
          )
        ],
      )
