-- ===== src/App/LoadBalancer/Safety.antt =====
-- app/load_balancer.cpp: no sequence of calls reads outside the vector of healthy backends.
use my_net_core_proxy.Prelude.{
  ℕ, ◌+◌, ◌%◌, ◌<◌, ◌≡◌, refl, ap, ◌⊎◌, inl, inr, Bool, true, List, [], ◌∷◌, length, arith, Option,
  none, some, Result, ok, ◌>>=◌, get_elem?, suc, zero,
}
use native.Mathlib.Nat.{mod-lt}
use my_net_core_proxy.Prelude.Keys.{Key}
use my_net_core_proxy.Prelude.Sets.{contains}
use my_net_core_proxy.App.LoadBalancer.{
  LoadBalancer, new, add_backend, remove_backend, update_health_status, get_next_backend,
}
use my_net_core_proxy.App.LoadBalancer.Health.{Inv, update_health_status-Inv, remove_backend-Inv}
use my_net_core_proxy.App.LoadBalancer.RoundRobin.{get_next_backend_lem}

pub data Call (A : Type 0) : Type 0 where
  adds : A → Call A
  removes : A → Call A
  reports : A → Bool → Call A
  picks : Call A

module _ {A : Type 0} ⦃k : Key A⦄ where
  pub step : LoadBalancer A → Call A → Result (Option A × LoadBalancer A)
  step lb (adds a) = ok (none, add_backend lb a)
  step lb (removes a) = ok (none, remove_backend lb a)
  step lb (reports a healthy) = ok (none, update_health_status lb a healthy)
  step lb picks = get_next_backend lb

  pub run : LoadBalancer A → List (Call A) → Result (LoadBalancer A)
  run lb [] = ok lb
  run lb (c ∷ cs) = do (out, lb') ← step lb c; run lb' cs

  get_elem?-contains :
      (xs : List A) (i : ℕ) (a : A) → get_elem? xs i ≡ some a → contains xs a ≡ true
  unfolding contains
  get_elem?-contains [] i a h = cc
  get_elem?-contains (x ∷ xs) zero a h = ground (arith, k.eq_refl a)
  get_elem?-contains (x ∷ xs) (suc i) a h = ground (arith, get_elem?-contains xs i a h)

  -- Under the invariant getNextBackend refuses exactly with no healthy backend and changes
  -- nothing then; otherwise it returns a healthy backend and keeps the vector and the invariant.
  pub get_next_backend-Inv :
      (lb : LoadBalancer A)
      → Inv lb
      → ((lb.healthy_backends ≡ []) × (get_next_backend lb ≡ ok (none, lb)))
        ⊎ ((a : A) × (lb' : LoadBalancer A) × (get_next_backend lb ≡ ok (some a, lb'))
            × (contains lb.healthy_backends a ≡ true)
            × (lb'.healthy_backends ≡ lb.healthy_backends)
            × Inv lb')
  get_next_backend-Inv lb v = by_list lb.healthy_backends refl
    where
      by_list :
          (xs : List A)
          → lb.healthy_backends ≡ xs
          → ((lb.healthy_backends ≡ []) × (get_next_backend lb ≡ ok (none, lb)))
            ⊎ ((a : A) × (lb' : LoadBalancer A) × (get_next_backend lb ≡ ok (some a, lb'))
                × (contains lb.healthy_backends a ≡ true)
                × (lb'.healthy_backends ≡ lb.healthy_backends)
                × Inv lb')
      by_list [] e = inl (e, unfold get_next_backend in ground arith)
      by_list (x ∷ xs) e =
          let inside : lb.next_index < length lb.healthy_backends =
            omega (arith, v.inside, ap length e) in
          let (a, at, done) = get_next_backend_lem lb inside in
          inr (
            a,
            record lb { next_index = (lb.next_index + 1) % length lb.healthy_backends },
            done,
            get_elem?-contains lb.healthy_backends lb.next_index a at,
            refl,
            record { distinct = v.distinct; inside = inr (grind (arith, mod-lt)) },
          )

  step-Inv :
      (lb : LoadBalancer A) (c : Call A)
      → Inv lb
      → (out : Option A) × (lb' : LoadBalancer A) × (step lb c ≡ ok (out, lb')) × Inv lb'
  unfolding step add_backend
  step-Inv lb (adds a) v =
      (none, add_backend lb a, refl, record { distinct = v.distinct; inside = v.inside })
  step-Inv lb (removes a) v = (none, remove_backend lb a, refl, remove_backend-Inv a v)
  step-Inv lb (reports a healthy) v =
      (none, update_health_status lb a healthy, refl, update_health_status-Inv a healthy v)
  step-Inv lb picks v = elim (get_next_backend-Inv lb v) [
    | inl (_, e) ↦ (none, lb, e, v)
    | inr (a, lb', e, _, _, v') ↦ (some a, lb', e, v')
  ]

  run-Inv :
      (cs : List (Call A)) (lb : LoadBalancer A)
      → Inv lb
      → (lb' : LoadBalancer A) × (run lb cs ≡ ok lb') × Inv lb'
  unfolding run
  run-Inv [] lb v = (lb, refl, v)
  run-Inv (c ∷ cs) lb v =
      let (out, next, e, v') = step-Inv lb c v in
      let (lb', e', w) = run-Inv cs next v' in (lb', ground (arith, e, e'), w)

  -- No sequence of calls on a new load balancer reads outside the vector of healthy backends, and
  -- after it the healthy backends are distinct and the next index is 0 or inside them.
  pub run-new-Inv : (cs : List (Call A)) → (lb : LoadBalancer A) × (run new cs ≡ ok lb) × Inv lb
  run-new-Inv cs = run-Inv cs new (record { distinct = tt; inside = inl refl })
