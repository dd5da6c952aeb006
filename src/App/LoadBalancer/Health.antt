-- ===== src/App/LoadBalancer/Health.antt =====
-- app/load_balancer.cpp: which backends are healthy after each method, and that none is listed twice.
use my_net_core_proxy.Prelude.{
  ◌+◌, ◌≤◌, ◌<◌, ◌≡◌, refl, ◌⊎◌, Bool, true, false, ◌||◌, List, [], ◌∷◌, ◌++◌, length,
  length-append, arith, if◌then◌else◌,
}
use my_net_core_proxy.Prelude.Keys.{Key}
use my_net_core_proxy.Prelude.Sets.{contains}
use my_net_core_proxy.Prelude.Sets.Order.{contains_congr}
use my_net_core_proxy.App.LoadBalancer.{
  LoadBalancer, remove_all, erase_found, remove_backend, update_health_status,
}

module _ {A : Type 0} ⦃k : Key A⦄ where
  -- No two entries are equal.
  abbrev pub Distinct : List A → Type 0
  Distinct [] = Unit {0}
  Distinct (x ∷ xs) = (contains xs x ≡ false) × Distinct xs

  pub contains-append :
      (xs ys : List A) (a : A) → contains (xs ++ ys) a ≡ (contains xs a || contains ys a)
  unfolding contains
  contains-append [] ys a = refl
  contains-append (x ∷ xs) ys a = ground (arith, contains-append xs ys a)

  pub contains-remove_all :
      (xs : List A) (a b : A)
      → contains (remove_all a xs) b ≡ (if k.eq a b then false else contains xs b)
  unfolding contains remove_all
  contains-remove_all [] a b = ground arith
  contains-remove_all (x ∷ xs) a b = ground (
    arith,
    contains-remove_all xs a b,
    k.eq_trans x a b,
    k.eq_trans a x b,
    k.eq_trans x b a,
    k.eq_sym x a,
    k.eq_sym a b,
    k.eq_sym x b,
  )

  pub remove_all_absent : (xs : List A) (a : A) → contains xs a ≡ false → remove_all a xs ≡ xs
  unfolding contains remove_all
  remove_all_absent [] a h = refl
  remove_all_absent (x ∷ xs) a h = ground (arith, remove_all_absent xs a)

  -- In a list without repetitions the first match is the only one.
  pub erase_found-eq-remove_all :
      (xs : List A) (a : A) → Distinct xs → erase_found a xs ≡ remove_all a xs
  unfolding remove_all erase_found
  erase_found-eq-remove_all [] a d = refl
  erase_found-eq-remove_all (x ∷ xs) a d =
      ground
        (arith, contains_congr xs x a, remove_all_absent xs a, erase_found-eq-remove_all xs a d.1)

  pub remove_all-Distinct : (xs : List A) (a : A) → Distinct xs → Distinct (remove_all a xs)
  unfolding remove_all
  remove_all-Distinct [] a d = tt
  remove_all-Distinct (x ∷ xs) a d =
      ground (arith, remove_all-Distinct xs a d.1, contains-remove_all xs a x)

  pub length-remove_all :
      (xs : List A) (a : A) → Distinct xs → length xs ≤ length (remove_all a xs) + 1
  unfolding remove_all
  length-remove_all [] a d = omega arith
  length-remove_all (x ∷ xs) a d =
      ground (arith, contains_congr xs x a, remove_all_absent xs a, length-remove_all xs a d.1)

  push-Distinct :
      (xs : List A) (a : A) → Distinct xs → contains xs a ≡ false → Distinct (xs ++ a ∷ [])
  unfolding contains
  push-Distinct [] a d h = ground arith
  push-Distinct (x ∷ xs) a d h =
      ground (arith, push-Distinct xs a d.1, contains-append xs (a ∷ []) x, k.eq_sym a x)

  -- With distinct healthy backends, after a health report the backend is healthy exactly if the
  -- report says so, and every other one is as before.
  pub contains-update_health_status :
      (lb : LoadBalancer A) (a b : A) (healthy : Bool)
      → Distinct lb.healthy_backends
      → contains (update_health_status lb a healthy).healthy_backends b
        ≡ (if k.eq a b then healthy else contains lb.healthy_backends b)
  unfolding update_health_status contains
  contains-update_health_status lb a b true d = ground (
    arith,
    contains_congr lb.healthy_backends a b,
    contains-append lb.healthy_backends (a ∷ []) b,
  )
  contains-update_health_status lb a b false d = ground (
    arith,
    contains_congr lb.healthy_backends a b,
    erase_found-eq-remove_all lb.healthy_backends a d,
    contains-remove_all lb.healthy_backends a b,
  )

  -- The healthy backends are distinct, and the index of the next one is 0 or inside them.
  pub record Inv (lb : LoadBalancer A) : Type 0 where
    pub distinct : Distinct lb.healthy_backends
    pub inside : (lb.next_index ≡ 0) ⊎ (lb.next_index < length lb.healthy_backends)

  pub update_health_status-Inv :
      {lb : LoadBalancer A} (a : A) (healthy : Bool)
      → Inv lb
      → Inv (update_health_status lb a healthy)
  unfolding update_health_status
  update_health_status-Inv {lb} a true v = ground (
    arith,
    push-Distinct lb.healthy_backends a v.distinct,
    length-append lb.healthy_backends (a ∷ []),
  )
  update_health_status-Inv {lb} a false v = ground (
    arith,
    erase_found-eq-remove_all lb.healthy_backends a v.distinct,
    remove_all-Distinct lb.healthy_backends a v.distinct,
  )

  pub remove_backend-Inv : {lb : LoadBalancer A} (a : A) → Inv lb → Inv (remove_backend lb a)
  unfolding remove_backend
  remove_backend-Inv {lb} a v = ground (
    arith,
    remove_all-Distinct lb.healthy_backends a v.distinct,
    length-remove_all lb.healthy_backends a v.distinct,
  )
