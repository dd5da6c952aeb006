-- ===== src/App/LoadBalancer/Tests.antt =====
-- Runs of the load balancer, and each theorem at concrete backends.
use my_net_core_proxy.Prelude.{
  ℕ, ◌+◌, ◌≡◌, refl, inr, true, false, [], ◌∷◌, ok, arith, if◌then◌else◌,
}
use my_net_core_proxy.Prelude.Keys.{Key}
use my_net_core_proxy.Prelude.Sets.{contains}
use my_net_core_proxy.Net.InetAddress.{InetAddress, InetText, eq, lt}
use my_net_core_proxy.Net.InetAddress.Order.{address_key}
use my_net_core_proxy.App.LoadBalancer.{
  LoadBalancer, new, add_backend, remove_backend, update_health_status, get_all_backends,
}
use my_net_core_proxy.App.LoadBalancer.Health.{Inv}
use my_net_core_proxy.Prelude.Sets.Order.{Ascending}
use my_net_core_proxy.App.LoadBalancer.Configured.{contains-add_backend, removed_comes_back}
use my_net_core_proxy.App.LoadBalancer.RoundRobin.{calls, calls_round}
use my_net_core_proxy.App.LoadBalancer.Safety.{run, run-new-Inv, adds, removes, reports, picks}

-- Texts of one character stand in for dotted quads.
abbrev sample_text : InetText
sample_text = record { inet_addr = λ x. 0; inet_ntop = λ x. (300 + x) ∷ [] }

abbrev backend : ℕ → InetAddress
backend ip = record { addr = record { sin_family = 2; s_addr = ip; sin_port = 16671 } }

instance abbrev sample_key : Key InetAddress
sample_key = address_key sample_text

-- Three configured backends, two of them healthy, the second is next.
abbrev sample : LoadBalancer InetAddress
sample = record {
  all_backends_set = backend 1 ∷ backend 2 ∷ backend 3 ∷ [];
  healthy_backends = backend 3 ∷ backend 1 ∷ [];
  next_index = 1;
}

sample-Inv : Inv sample
unfolding contains eq
sample-Inv = record { distinct = (refl, (refl, tt)); inside = inr (omega arith) }

sample-Ascending : Ascending (get_all_backends sample)
unfolding get_all_backends lt
sample-Ascending = ((refl, (refl, tt)), ((refl, tt), (tt, tt)))

calls_round_example : calls 2 sample ≡ ok (backend 1 ∷ backend 3 ∷ [], sample)
calls_round_example = calls_round sample (omega arith)

contains-add_backend_example :
    Ascending (get_all_backends (add_backend sample (backend 4)))
    × (contains (get_all_backends (add_backend sample (backend 4))) (backend 4) ≡ (
        if sample_key.eq (backend 4) (backend 4)
        then true
        else contains (get_all_backends sample) (backend 4)))
contains-add_backend_example = contains-add_backend sample (backend 4) (backend 4) sample-Ascending

removed_comes_back_example :
    let lb' = update_health_status (remove_backend sample (backend 3)) (backend 3) true in
    (contains lb'.healthy_backends (backend 3) ≡ true)
    × (contains (get_all_backends lb') (backend 3) ≡ false)
removed_comes_back_example =
    removed_comes_back sample (backend 3) sample-Ascending sample-Inv.distinct

run-new-Inv_example :
    (lb : LoadBalancer InetAddress) × (run new
        (adds (backend 1) ∷ reports (backend 1) true ∷ picks ∷ removes (backend 1) ∷ [])
      ≡ ok lb)
    × Inv lb
run-new-Inv_example =
    run-new-Inv (adds (backend 1) ∷ reports (backend 1) true ∷ picks ∷ removes (backend 1) ∷ [])
