-- ===== src/App/RouteTable.antt =====
-- app/route_table.h: the table of routes, a map from hosts to addresses of backends. Its lock makes each
-- method one step.
mod Tests
use my_net_core_proxy.Prelude.{
  ℕ, ◌≡◌, refl, sym, ◌∙◌, ap, Bool, true, false, ◌==◌, if◌then◌else◌, Option, none, some, List, [],
  ◌∷◌, arith, Bool-cases, inl, inr,
}
use my_net_core_proxy.Net.InetAddress.{string_eq}
use my_net_core_proxy.Net.InetAddress.Order.{string_eq_sound, string_eq_complete}

-- `routes_`, with one entry for each host that has one.
abbrev pub RouteTable : Type 0
RouteTable = List (List ℕ × List ℕ)

-- `routes_.find(host)`
unfoldable pub route_of : RouteTable → List ℕ → Option (List ℕ)
route_of [] host = none
route_of ((k, v) ∷ routes) host =
    let rest = route_of routes host in if string_eq k host then some v else rest

unfoldable pub get_backend : RouteTable → List ℕ → List ℕ
unfolding route_of
get_backend routes host = elim (route_of routes host) [ none ↦ [] | some addr ↦ addr ]

-- `routes_[host] = backend_addr`
unfoldable pub update_route : RouteTable → List ℕ → List ℕ → RouteTable
update_route [] host backend_addr = (host, backend_addr) ∷ []
update_route ((k, v) ∷ routes) host backend_addr =
    let rest = update_route routes host backend_addr in
    if string_eq k host then (k, backend_addr) ∷ routes else (k, v) ∷ rest

both_same :
    (k host other : List ℕ)
    → string_eq k other ≡ true
    → string_eq host other ≡ true
    → string_eq k host ≡ true
both_same k host other e f =
    string_eq_complete k host (string_eq_sound k other e ∙ sym (string_eq_sound host other f))

route_of-update_route :
    (routes : RouteTable) (host backend_addr other : List ℕ)
    → route_of (update_route routes host backend_addr) other
      ≡ (if string_eq host other then some backend_addr else route_of routes other)
unfolding route_of update_route
route_of-update_route [] host backend_addr other = refl
route_of-update_route ((k, v) ∷ routes) host backend_addr other =
    elim (Bool-cases (string_eq k host)) [
      | inl e ↦
          let same : k ≡ host = string_eq_sound k host e in
          rw e (rw same (by_key (string_eq host other)))
      | inr ne ↦
          rw (ne, route_of-update_route routes host backend_addr other)
            (apart (string_eq k other) (string_eq host other) refl refl ne)
    ]
  where
    by_key :
        (b : Bool)
        → (if b then some backend_addr else route_of routes other)
          ≡ (if b then some backend_addr else (if b then some v else route_of routes other))
    by_key true = refl
    by_key false = refl

    apart :
        (b c : Bool)
        → string_eq k other ≡ b
        → string_eq host other ≡ c
        → string_eq k host ≡ false
        → (if b then some v else (if c then some backend_addr else route_of routes other))
          ≡ (if c then some backend_addr else (if b then some v else route_of routes other))
    apart true true e f ne = ground (arith, both_same k host other e f)
    apart true false e f ne = refl
    apart false c e f ne = refl

-- After updateRoute, getBackend gives the new address for the updated host and what it gave
-- before for every other host.
pub get_backend-update_route :
    (routes : RouteTable) (host backend_addr other : List ℕ)
    → get_backend (update_route routes host backend_addr) other
      ≡ (if string_eq host other then backend_addr else get_backend routes other)
unfolding get_backend
get_backend-update_route routes host backend_addr other = elim (Bool-cases (string_eq host other)) [
  | inl e ↦ ground (arith, e, route_of-update_route routes host backend_addr other)
  | inr e ↦ ground (arith, e, route_of-update_route routes host backend_addr other)
]
