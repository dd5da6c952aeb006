-- ===== src/App/LoadBalancer/RoundRobin.antt =====
-- app/load_balancer.cpp: whom `getNextBackend` picks, call after call.
use my_net_core_proxy.Prelude.{
  ℕ, zero, suc, ◌+◌, ◌-◌, ◌%◌, ◌≤◌, ◌<◌, ◌≡◌, refl, ◌∙◌, ap, ap₂, take_all, length-drop, List, [],
  ◌∷◌, ◌++◌, length, get_elem?, take, drop, arith, none, some, Result, ok, ◌>>=◌, append-nil,
}
use native.Mathlib.Nat.{mod-eq_of_lt}
use my_net_core_proxy.App.LoadBalancer.{LoadBalancer, get_next_backend}

wraps : (i n : ℕ) → i < n → (i + (n - i)) % n ≡ 0
wraps i n h = let e : i + (n - i) ≡ n = omega arith in rw e (grind arith)

module _ {A : Type 0} where
  get_elem?-inside : (xs : List A) (i : ℕ) → i < length xs → (a : A) × (get_elem? xs i ≡ some a)
  get_elem?-inside [] i h = absurd (omega arith)
  get_elem?-inside (x ∷ xs) zero h = (x, refl)
  get_elem?-inside (x ∷ xs) (suc i) h = get_elem?-inside xs i (omega arith)

  drop-get_elem? :
      (xs : List A) (i : ℕ) (a : A) → get_elem? xs i ≡ some a → drop i xs ≡ a ∷ drop (suc i) xs
  drop-get_elem? [] i a h = cc
  drop-get_elem? (x ∷ xs) zero a h = ground (arith, h)
  drop-get_elem? (x ∷ xs) (suc i) a h = drop-get_elem? xs i a h

  -- `n` calls one after the other, with the addresses that they return.
  pub calls : ℕ → LoadBalancer A → Result (List A × LoadBalancer A)
  calls zero lb = ok ([], lb)
  calls (suc n) lb = do
    (out, lb') ← get_next_backend lb
    (outs, lb'') ← calls n lb'
    ok (elim out [ none ↦ outs | some a ↦ a ∷ outs ], lb'')

  -- With an index inside a list that is not empty, the call returns the backend at the index, and
  -- the index moves on, round the end of the list.
  pub get_next_backend_lem :
      (lb : LoadBalancer A)
      → lb.next_index < length lb.healthy_backends
      → (a : A) × (get_elem? lb.healthy_backends lb.next_index ≡ some a)
        × (get_next_backend lb
            ≡ ok (
              some a,
              record lb { next_index = (lb.next_index + 1) % length lb.healthy_backends },
            ))
  unfolding get_next_backend
  get_next_backend_lem lb h =
      let (a, e) = get_elem?-inside lb.healthy_backends lb.next_index h in (a, e, ground (arith, e))

  calls-suc :
      (n : ℕ) (lb lb' lb'' : LoadBalancer A) (a : A) (xs : List A)
      → get_next_backend lb ≡ ok (some a, lb')
      → calls n lb' ≡ ok (xs, lb'')
      → calls (suc n) lb ≡ ok (a ∷ xs, lb'')
  unfolding calls
  calls-suc n lb lb' lb'' a xs h k = ground (arith, h, k)

  -- As long as the index does not pass the end, calls return the backends from the index on; then
  -- come the later calls.
  calls_then :
      (n m : ℕ) (lb lb' : LoadBalancer A) (ys : List A)
      → lb.next_index < length lb.healthy_backends
      → lb.next_index + n ≤ length lb.healthy_backends
      → calls m (record lb { next_index = (lb.next_index + n) % length lb.healthy_backends })
        ≡ ok (ys, lb')
      → calls (n + m) lb ≡ ok (take n (drop lb.next_index lb.healthy_backends) ++ ys, lb')
  calls_then zero m lb lb' ys h k later =
      let e : (lb.next_index + 0) % length lb.healthy_backends ≡ lb.next_index =
        grind (arith, mod-eq_of_lt) in
      let z : 0 + m ≡ m = omega arith in rw z (rw e at later)
  calls_then (suc zero) m lb lb' ys h k later =
      let (a, at, e) = get_next_backend_lem lb h in
      let z : 1 + m ≡ suc m = omega arith in
      rw (drop-get_elem? lb.healthy_backends lb.next_index a at, z)
        (calls-suc m lb _ lb' a ys e later)
  calls_then (suc (suc n)) m lb lb' ys h k later =
      let (a, at, e) = get_next_backend_lem lb h in
      let i : ℕ = lb.next_index in
      let inc : (i + 1) % length lb.healthy_backends ≡ suc i = grind (arith, mod-eq_of_lt) in
      let regroup : i + suc (suc n) ≡ suc i + suc n = omega arith in
      let z : suc (suc n) + m ≡ suc (suc n + m) = omega arith in
      let rest : calls (suc n + m) (record lb { next_index = suc i })
          ≡ ok (take (suc n) (drop (suc i) lb.healthy_backends) ++ ys, lb') =
        calls_then (suc n) m (record lb { next_index = suc i }) lb' ys (omega arith) (omega arith)
          (rw regroup at later) in
      rw (drop-get_elem? lb.healthy_backends i a at, z)
        (calls-suc (suc n + m) lb _ lb' a _ e (rw inc rest))

  -- With the next index inside the healthy backends, as many calls of getNextBackend as there are
  -- healthy backends return each once, in turn from the index on, and leave the balancer as it
  -- was.
  pub calls_round :
      (lb : LoadBalancer A)
      → lb.next_index < length lb.healthy_backends
      → calls (length lb.healthy_backends) lb
        ≡ ok (drop lb.next_index lb.healthy_backends ++ take lb.next_index lb.healthy_backends, lb)
  calls_round lb h =
      let i : ℕ = lb.next_index in
      let xs : List A = lb.healthy_backends in
      let wrap : (i + (length xs - i)) % length xs ≡ 0 = wraps i (length xs) h in
      let here : (0 + i) % length xs ≡ i = grind (arith, mod-eq_of_lt) in
      let none_left : i + 0 ≡ i = omega arith in
      let all : length xs - i + i ≡ length xs = omega arith in
      let second : calls i (record lb { next_index = 0 }) ≡ ok (take i xs ++ [], lb) =
        rw none_left at (
          calls_then i 0 (record lb { next_index = 0 }) lb [] (omega arith) (omega arith)
            (rw here (unfold calls in refl))) in
      let first : calls (length xs - i + i) lb
          ≡ ok (take (length xs - i) (drop i xs) ++ (take i xs ++ []), lb) =
        calls_then (length xs - i) i lb lb (take i xs ++ []) h (omega arith) (rw wrap second) in
      rw all at first
      ∙ ap (λ zs. ok (zs, lb))
          (ap₂ ◌++◌ (take_all (length xs - i) (drop i xs) (omega (arith, length-drop i xs)))
            (append-nil (take i xs)))
