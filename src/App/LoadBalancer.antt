-- ===== src/App/LoadBalancer.antt =====
-- app/load_balancer.h and app/load_balancer.cpp. Every method holds `mutex_` from its first line to
-- its last, so a method is one step. The key is `InetAddress` with its `==` and `<`.
pub mod Health
pub mod RoundRobin
pub mod Configured
pub mod Safety
mod Tests
use my_net_core_proxy.Prelude.{
  ℕ, ◌+◌, ◌%◌, Bool, true, false, not, ◌&&◌, Option, none, some, List, [], ◌∷◌, ◌++◌, length,
  get_elem?, leb, ltb, if◌then◌else◌, Result, ok, fault, out_of_bounds, ◌>>=◌,
}
use my_net_core_proxy.Prelude.Keys.{Key}
use my_net_core_proxy.Prelude.Sets.{set_insert, set_erase, contains}

pub record LoadBalancer (A : Type 0) : Type 0 where
  pub all_backends_set : List A
  pub healthy_backends : List A
  pub next_index : ℕ

-- The constructor.
abbrev pub new : {A : Type 0} → LoadBalancer A
new = record { all_backends_set = []; healthy_backends = []; next_index = 0 }

module _ {A : Type 0} ⦃k : Key A⦄ where
  -- `std::remove` with `erase`: every equal element goes.
  pub remove_all : A → List A → List A
  remove_all a [] = []
  remove_all a (x ∷ xs) = if k.eq x a then remove_all a xs else x ∷ remove_all a xs

  -- `erase` at the iterator that `std::find` returned.
  pub erase_found : A → List A → List A
  erase_found a [] = []
  erase_found a (x ∷ xs) = if k.eq x a then xs else x ∷ erase_found a xs

  pub add_backend : LoadBalancer A → A → LoadBalancer A
  add_backend lb addr = record lb { all_backends_set = set_insert addr lb.all_backends_set }

  pub remove_backend : LoadBalancer A → A → LoadBalancer A
  remove_backend lb addr =
      let healthy' = remove_all addr lb.healthy_backends in
      record {
        all_backends_set = set_erase addr lb.all_backends_set;
        healthy_backends = healthy';
        next_index =
            if leb (length healthy') lb.next_index && ltb 0 (length healthy')
            then 0
            else lb.next_index;
      }

  pub update_health_status : LoadBalancer A → A → Bool → LoadBalancer A
  update_health_status lb addr healthy =
      if healthy
      then (if contains lb.healthy_backends addr
          then lb
          else record lb { healthy_backends = lb.healthy_backends ++ addr ∷ [] })
      else (if contains lb.healthy_backends addr
          then (let healthy' = erase_found addr lb.healthy_backends in
              record lb {
                healthy_backends = healthy';
                next_index = if leb (length healthy') lb.next_index then 0 else lb.next_index;
              })
          else lb)

  pub get_all_backends : LoadBalancer A → List A
  get_all_backends lb = lb.all_backends_set

-- `healthy_backends_[i]`: outside the vector there is no value.
abbrev pub element : {A : Type 0} → List A → ℕ → Result A
element xs i = elim (get_elem? xs i) [ none ↦ fault out_of_bounds | some a ↦ ok a ]

-- The address through `out_addr`, or nothing where the method returns false.
pub get_next_backend : {A : Type 0} → LoadBalancer A → Result (Option A × LoadBalancer A)
get_next_backend lb = elim lb.healthy_backends [
  | [] ↦ ok (none, lb)
  | x ∷ xs ↦ do
    addr ← element (x ∷ xs) lb.next_index
    ok (some addr, record lb { next_index = (lb.next_index + 1) % length (x ∷ xs) })
]
