-- ===== src/Prelude/Decimal.antt =====
-- `std::to_string` of a number that is not negative: its decimal digits.
use my_net_core_proxy.Prelude.{
  ℕ, zero, suc, ◌+◌, ◌-◌, ◌*◌, ◌/◌, ◌%◌, ◌^◌, ◌≤◌, ◌<◌, length, length-append, replicate, ◌≡◌, refl,
  sym, ◌∙◌, ap, List, [], ◌∷◌, ◌++◌, ltb, if◌then◌else◌, Bool-cases, inl, inr, arith,
}

unfoldable pub digits : ℕ → ℕ → List ℕ
digits zero n = []
digits (suc fuel) n =
    let front = digits fuel (n / 10) in
    if ltb n 10 then (48 + n) ∷ [] else front ++ (48 + n % 10) ∷ []

-- A number has no more digits than its successor.
unfoldable pub to_string : ℕ → List ℕ
unfolding digits
to_string n = digits (suc n) n

-- The characters `0` to `9`.
abbrev pub AreDigits : List ℕ → Type 0
AreDigits [] = Unit {0}
AreDigits (c ∷ cs) = (48 ≤ c) × (c ≤ 57) × AreDigits cs

pub append-AreDigits : (xs ys : List ℕ) → AreDigits xs → AreDigits ys → AreDigits (xs ++ ys)
append-AreDigits [] ys a b = b
append-AreDigits (x ∷ xs) ys a b = (a.0, a.1, append-AreDigits xs ys a.2 b)

pub zeros-AreDigits : (k : ℕ) → AreDigits (replicate k b'0')
zeros-AreDigits zero = tt
zeros-AreDigits (suc k) = (omega arith, omega arith, zeros-AreDigits k)

digits-AreDigits : (fuel n : ℕ) → AreDigits (digits fuel n)
unfolding digits
digits-AreDigits zero n = tt
digits-AreDigits (suc fuel) n = elim (Bool-cases (ltb n 10)) [
  | inl e ↦ rw e (omega arith, ground arith, tt)
  | inr e ↦ rw e (
      append-AreDigits (digits fuel (n / 10)) ((48 + n % 10) ∷ []) (digits-AreDigits fuel (n / 10))
        (omega arith, omega arith, tt))
]

pub to_string-AreDigits : (n : ℕ) → AreDigits (to_string n)
unfolding to_string
to_string-AreDigits n = digits-AreDigits (suc n) n

-- The number that digits stand for, from the front.
unfoldable pub value : ℕ → List ℕ → ℕ
value acc [] = acc
value acc (c ∷ cs) = value (acc * 10 + (c - 48)) cs

pub value-append : (acc : ℕ) (xs ys : List ℕ) → value acc (xs ++ ys) ≡ value (value acc xs) ys
unfolding value
value-append acc [] ys = refl
value-append acc (x ∷ xs) ys = value-append (acc * 10 + (x - 48)) xs ys

value-digits : (fuel n : ℕ) → n < fuel → value 0 (digits fuel n) ≡ n
unfolding value digits
value-digits zero n h = absurd (omega arith)
value-digits (suc fuel) n h =
    ground (
      arith,
      value-digits fuel (n / 10),
      value-append 0 (digits fuel (n / 10)) ((48 + n % 10) ∷ []),
    )

-- Different numbers have different texts.
pub to_string-injective : (n m : ℕ) → to_string n ≡ to_string m → n ≡ m
unfolding to_string
to_string-injective n m e =
    sym (value-digits (suc n) n (omega arith))
    ∙ ap (value 0) e
    ∙ value-digits (suc m) m (omega arith)

-- The text of a number has that number's value.
pub value-to_string : (n : ℕ) → value 0 (to_string n) ≡ n
unfolding to_string
value-to_string n = value-digits (suc n) n (omega arith)

regroup : (a d p v : ℕ) → (a * 10 + d) * p + v ≡ a * (10 * p) + ((0 * 10 + d) * p + v)
regroup a d p v = grind arith

pub value-acc : (acc : ℕ) (xs : List ℕ) → value acc xs ≡ acc * 10 ^ length xs + value 0 xs
unfolding value
value-acc acc [] = omega arith
value-acc acc (x ∷ xs) =
    let e : 10 ^ suc (length xs) ≡ 10 * 10 ^ length xs = grind arith in
    value-acc (acc * 10 + (x - 48)) xs
    ∙ regroup acc (x - 48) (10 ^ length xs) (value 0 xs)
    ∙ rw (e, value-acc (0 * 10 + (x - 48)) xs) refl

length-digits : (fuel w n : ℕ) → n < 10 ^ suc w → length (digits fuel n) ≤ suc w
unfolding digits
length-digits zero w n h = omega arith
length-digits (suc fuel) zero n h = let small : n < 10 = grind arith in ground arith
length-digits (suc fuel) (suc w) n h =
    let e : 10 ^ suc (suc w) ≡ 10 * 10 ^ suc w = grind arith in
    let shorter : n / 10 < 10 ^ suc w = omega (arith, e) in
    ground (
      arith,
      length-digits fuel w (n / 10) shorter,
      length-append (digits fuel (n / 10)) ((48 + n % 10) ∷ []),
    )

-- A number below `10 ^ (w + 1)` has no more than `w + 1` digits.
pub length-to_string : (w n : ℕ) → n < 10 ^ suc w → length (to_string n) ≤ suc w
unfolding to_string
length-to_string w n h = length-digits (suc n) w n h

pub value-zeros : (k : ℕ) (xs : List ℕ) → value 0 (replicate k b'0' ++ xs) ≡ value 0 xs
unfolding value
value-zeros zero xs = refl
value-zeros (suc k) xs = value-zeros k xs
