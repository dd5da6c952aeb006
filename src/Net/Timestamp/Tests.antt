-- ===== src/Net/Timestamp/Tests.antt =====
-- The text of one point in time.
use my_net_core_proxy.Prelude.{ℕ, ◌≡◌, refl, [], List, ◌∷◌, ◌++◌, ◌≤◌, arith, length}
use my_net_core_proxy.Prelude.Decimal
use my_net_core_proxy.Prelude.Decimal.{AreDigits, value}
use my_net_core_proxy.Net.Timestamp.{now, to_string}
use my_net_core_proxy.Net.Timestamp.Text.{to_string_lem}

to_string_lem_example :
    (seconds : List ℕ) × (fraction : List ℕ) × (to_string 1500007 ≡ seconds ++ (b'.' ∷ fraction))
    × AreDigits (seconds ++ fraction)
    × (length fraction ≡ 6)
    × (value 0 (seconds ++ fraction) ≡ 1500007)
    × (length (to_string 1500007) ≤ 30)
to_string_lem_example = to_string_lem 1500007 (omega arith)

-- 1.500007
half_past : to_string (now 1 500007) ≡ 49 ∷ 46 ∷ 53 ∷ 48 ∷ 48 ∷ 48 ∷ 48 ∷ 55 ∷ []
unfolding to_string now Decimal.to_string
half_past = refl
