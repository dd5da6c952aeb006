-- ===== src/Net/Timestamp/Text.antt =====
-- net/timestamp.cpp: what toString writes.
use my_net_core_proxy.Prelude.{
  ℕ, ◌+◌, ◌-◌, ◌*◌, ◌/◌, ◌%◌, ◌^◌, ◌≤◌, ◌<◌, ◌≡◌, ◌∙◌, ap, List, ◌∷◌, ◌++◌, length, length-append,
  length-replicate, take_all, replicate, arith,
}
use my_net_core_proxy.Prelude.Decimal
use my_net_core_proxy.Prelude.Decimal.{
  AreDigits, append-AreDigits, zeros-AreDigits, to_string-AreDigits, value, value-append, value-acc,
  value-to_string, value-zeros, length-to_string,
}
use my_net_core_proxy.Net.Timestamp.{micro_seconds_per_second, padded, cut, to_string}

value-padded : (w n : ℕ) → value 0 (padded b'0' w n) ≡ n
unfolding padded
value-padded w n =
    value-zeros (w - length (Decimal.to_string n)) (Decimal.to_string n) ∙ value-to_string n

padded-AreDigits : (w n : ℕ) → AreDigits (padded b'0' w n)
unfolding padded
padded-AreDigits w n =
    append-AreDigits (replicate (w - length (Decimal.to_string n)) b'0') (Decimal.to_string n)
      (zeros-AreDigits (w - length (Decimal.to_string n))) (to_string-AreDigits n)

length-padded : (n : ℕ) → n < 1000000 → length (padded b'0' 6 n) ≡ 6
unfolding padded
length-padded n h = omega (
  arith,
  length-append (replicate (6 - length (Decimal.to_string n)) b'0') (Decimal.to_string n),
  length-replicate {A = ℕ} (6 - length (Decimal.to_string n)) b'0',
  length-to_string 5 n (omega arith),
)

joined :
    (t whole part w : ℕ)
    → whole ≡ t / micro_seconds_per_second
    → part ≡ t % micro_seconds_per_second
    → w ≡ 6
    → whole * 10 ^ w + part ≡ t
joined t whole part w a b c = rw (a, b, c) (omega arith)

-- For a time below 2^63, toString writes digits, a point and six digits without loss in its
-- buffer, every character but the point is one of 0 to 9, and the digits read back are the
-- microseconds.
pub to_string_lem :
    (t : ℕ)
    → t < 2 ^ 63
    → (seconds : List ℕ) × (fraction : List ℕ) × (to_string t ≡ seconds ++ (b'.' ∷ fraction))
      × AreDigits (seconds ++ fraction)
      × (length fraction ≡ 6)
      × (value 0 (seconds ++ fraction) ≡ t)
      × (length (to_string t) ≤ 30)
unfolding to_string cut
to_string_lem t h =
    let seconds : List ℕ = Decimal.to_string (t / micro_seconds_per_second) in
    let fraction : List ℕ = padded b'0' 6 (t % micro_seconds_per_second) in
    let six : length fraction ≡ 6 = length-padded (t % micro_seconds_per_second) (omega arith) in
    let short : length seconds ≤ 13 =
      length-to_string 12 (t / micro_seconds_per_second) (omega arith) in
    let all : length (seconds ++ (b'.' ∷ fraction)) ≤ 20 =
      omega (arith, length-append seconds (b'.' ∷ fraction)) in
    let whole : to_string t ≡ seconds ++ (b'.' ∷ fraction) =
      take_all 30 (seconds ++ (b'.' ∷ fraction)) (omega arith) in
    let read : value 0 (seconds ++ fraction) ≡ t =
      value-append 0 seconds fraction
      ∙ value-acc (value 0 seconds) fraction
      ∙ joined t (value 0 seconds) (value 0 fraction) (length fraction)
          (value-to_string (t / micro_seconds_per_second))
          (value-padded 6 (t % micro_seconds_per_second)) six in
    let all_digits : AreDigits (seconds ++ fraction) =
      append-AreDigits seconds fraction (to_string-AreDigits (t / micro_seconds_per_second))
        (padded-AreDigits 6 (t % micro_seconds_per_second)) in
    (seconds, fraction, whole, all_digits, six, read, omega (arith, ap length whole))
