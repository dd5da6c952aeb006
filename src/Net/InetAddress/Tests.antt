-- ===== src/Net/InetAddress/Tests.antt =====
-- Runs of the address conversions, and each theorem at a concrete address.
use my_net_core_proxy.Prelude.{ℕ, ◌+◌, ◌-◌, ◌≡◌, refl, List, [], ◌∷◌, ◌++◌, arith}
use my_net_core_proxy.Prelude.Decimal.{to_string}
use my_net_core_proxy.Net.InetAddress.{InetAddress, InetText, new, to_port, to_ip, to_ip_port}
use my_net_core_proxy.Net.InetAddress.Order.{new_lem}

-- Texts of one character stand in for dotted quads: 300 and up, so never a ':'.
abbrev first_char : List ℕ → ℕ
first_char [] = 0
first_char (c ∷ cs) = c - 300

abbrev sample_text : InetText
sample_text = record { inet_addr = first_char; inet_ntop = λ x. (300 + x) ∷ [] }

abbrev backend : ℕ → InetAddress
backend port = record { addr = record { sin_family = 2; s_addr = 7; sin_port = port } }

prints : to_string 8001 ≡ 56 ∷ 48 ∷ 48 ∷ 49 ∷ []
unfolding to_string
prints = refl

new_lem_example :
    (to_port (new sample_text (307 ∷ []) 8001) ≡ 8001)
    × (to_ip sample_text (new sample_text (307 ∷ []) 8001) ≡ 307 ∷ [])
    × (to_ip_port sample_text (new sample_text (307 ∷ []) 8001)
        ≡ (307 ∷ []) ++ (b':' ∷ to_string 8001))
new_lem_example = new_lem sample_text (307 ∷ []) 8001 (omega arith) refl
