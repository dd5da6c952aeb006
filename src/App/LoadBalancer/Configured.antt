-- ===== src/App/LoadBalancer/Configured.antt =====
-- app/load_balancer.cpp: the ordered set of configured backends, and how it differs from the healthy ones.
use my_net_core_proxy.Prelude.{◌≡◌, refl, inl, Bool, true, false, arith, if◌then◌else◌}
use my_net_core_proxy.Prelude.Keys.{Key}
use my_net_core_proxy.Prelude.Sets.{contains}
use my_net_core_proxy.Prelude.Sets.Order.{
  Ascending, set_insert-Ascending, set_erase-Ascending, contains-set_insert, contains-set_erase,
}
use my_net_core_proxy.App.LoadBalancer.{
  LoadBalancer, new, add_backend, remove_backend, update_health_status, get_all_backends,
}
use my_net_core_proxy.App.LoadBalancer.Health.{
  Inv, Distinct, contains-update_health_status, contains-remove_all, remove_all-Distinct,
}

module _ {A : Type 0} ⦃k : Key A⦄ where
  -- Adding and removing keep the configured backends in strictly ascending order and change exactly
  -- whether the named backend is among them.
  pub contains-add_backend :
      (lb : LoadBalancer A) (a b : A)
      → Ascending (get_all_backends lb)
      → Ascending (get_all_backends (add_backend lb a))
        × (contains (get_all_backends (add_backend lb a)) b
            ≡ (if k.eq a b then true else contains (get_all_backends lb) b))
  unfolding get_all_backends add_backend
  contains-add_backend lb a b v =
      (set_insert-Ascending a lb.all_backends_set v, contains-set_insert a b lb.all_backends_set)

  -- A new balancer has no backend.
  pub new_lem :
      Inv (new {A = A})
      × Ascending (get_all_backends (new {A = A}))
      × ((a : A) → contains (get_all_backends new) a ≡ false)
  unfolding get_all_backends contains
  new_lem = (record { distinct = tt; inside = inl refl }, tt, λ a. refl)

  -- A backend that is added is not healthy by that.
  pub add_backend-Inv :
      {lb : LoadBalancer A} (a : A)
      → Inv lb
      → Inv (add_backend lb a) × ((add_backend lb a).healthy_backends ≡ lb.healthy_backends)
  unfolding add_backend
  add_backend-Inv a v = (record { distinct = v.distinct; inside = v.inside }, refl)

  -- With the configured backends in strictly ascending order, removing a backend keeps the order
  -- and takes it, and no other, out of the configured and of the healthy backends.
  pub contains-remove_backend :
      (lb : LoadBalancer A) (a b : A)
      → Ascending (get_all_backends lb)
      → Ascending (get_all_backends (remove_backend lb a))
        × (contains (get_all_backends (remove_backend lb a)) b
            ≡ (if k.eq a b then false else contains (get_all_backends lb) b))
        × (contains (remove_backend lb a).healthy_backends b
            ≡ (if k.eq a b then false else contains lb.healthy_backends b))
  unfolding get_all_backends remove_backend
  contains-remove_backend lb a b v = (
    set_erase-Ascending a lb.all_backends_set v,
    contains-set_erase a b lb.all_backends_set v,
    contains-remove_all lb.healthy_backends a b,
  )

  pub all_backends-update :
      (lb : LoadBalancer A) (a : A) (healthy : Bool)
      → get_all_backends (update_health_status lb a healthy) ≡ get_all_backends lb
  unfolding get_all_backends update_health_status
  all_backends-update lb a healthy = ground arith

  -- From ascending configured and distinct healthy backends, a report of health that arrives
  -- after its backend was removed makes it healthy again although it is not configured.
  pub removed_comes_back :
      (lb : LoadBalancer A) (a : A)
      → Ascending (get_all_backends lb)
      → Distinct lb.healthy_backends
      → let lb' = update_health_status (remove_backend lb a) a true in
        (contains lb'.healthy_backends a ≡ true) × (contains (get_all_backends lb') a ≡ false)
  unfolding remove_backend
  removed_comes_back lb a v d = ground (
    arith,
    contains-update_health_status (remove_backend lb a) a a true
        (remove_all-Distinct lb.healthy_backends a d),
    all_backends-update (remove_backend lb a) a true,
    contains-remove_backend lb a a v,
    k.eq_refl a,
  )
