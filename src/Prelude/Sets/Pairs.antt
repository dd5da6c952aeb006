-- ===== src/Prelude/Sets/Pairs.antt =====
-- Sets of pairs of numbers: what stands in one after an insertion or an erasure.
use my_net_core_proxy.Prelude.{
  ℕ, ◌≡◌, ◌⊎◌, inl, inr, Bool-cases, true, false, List, arith, if◌then◌else◌,
}
use my_net_core_proxy.Prelude.Pairs.{pair_key, pair_eq}
use my_net_core_proxy.Prelude.Sets.{contains, set_insert, set_erase}
use my_net_core_proxy.Prelude.Sets.Order.{
  Ascending, contains_congr, contains-set_insert, contains-set_erase,
}

pub same_pair : (a b c d : ℕ) → pair_eq (a, b) (c, d) ≡ true → (a ≡ c) × (b ≡ d)
same_pair a b c d h = ground arith

-- What stands in a set after an insertion stood there before or is the inserted pair.
pub contains-set_insert_cases :
    (a b c d : ℕ) (xs : List (ℕ × ℕ))
    → contains (set_insert (a, b) xs) (c, d) ≡ true
    → ((a ≡ c) × (b ≡ d)) ⊎ (contains xs (c, d) ≡ true)
contains-set_insert_cases a b c d xs h = elim (Bool-cases (pair_eq (a, b) (c, d))) [
  | inl e ↦ inl (same_pair a b c d e)
  | inr e ↦ inr (ground (arith, contains-set_insert (a, b) (c, d) xs, e))
]

pub contains-set_insert_self :
    (a b : ℕ) (xs : List (ℕ × ℕ)) → contains (set_insert (a, b) xs) (a, b) ≡ true
contains-set_insert_self a b xs = ground (arith, contains-set_insert (a, b) (a, b) xs)

pub contains-set_insert_old :
    (a b c d : ℕ) (xs : List (ℕ × ℕ))
    → contains xs (c, d) ≡ true
    → contains (set_insert (a, b) xs) (c, d) ≡ true
contains-set_insert_old a b c d xs h = ground (arith, contains-set_insert (a, b) (c, d) xs, h)

pub contains-set_erase_cases :
    (a b c d : ℕ) (xs : List (ℕ × ℕ))
    → Ascending xs
    → contains (set_erase (a, b) xs) (c, d) ≡ true
    → (pair_eq (a, b) (c, d) ≡ false) × (contains xs (c, d) ≡ true)
contains-set_erase_cases a b c d xs v h = ground (arith, contains-set_erase (a, b) (c, d) xs v, h)

pub contains-set_erase_other :
    (a b c d : ℕ) (xs : List (ℕ × ℕ))
    → Ascending xs
    → pair_eq (a, b) (c, d) ≡ false
    → contains xs (c, d) ≡ true
    → contains (set_erase (a, b) xs) (c, d) ≡ true
contains-set_erase_other a b c d xs v h there =
    ground (arith, contains-set_erase (a, b) (c, d) xs v, h, there)

pub contains-set_erase_absent :
    (a b c d : ℕ) (xs : List (ℕ × ℕ))
    → Ascending xs
    → contains xs (c, d) ≡ false
    → contains (set_erase (a, b) xs) (c, d) ≡ false
contains-set_erase_absent a b c d xs v h = ground (arith, contains-set_erase (a, b) (c, d) xs v, h)

pub contains-set_erase_self :
    (a b : ℕ) (xs : List (ℕ × ℕ)) → Ascending xs → contains (set_erase (a, b) xs) (a, b) ≡ false
contains-set_erase_self a b xs v = ground (arith, contains-set_erase (a, b) (a, b) xs v)

-- Taking out what is not there takes nothing out.
pub absent_anyway :
    (a b : ℕ) (xs : List (ℕ × ℕ))
    → contains xs (a, b) ≡ false
    → (c d : ℕ) → contains xs (c, d) ≡ (if pair_eq (a, b) (c, d) then false else contains xs (c, d))
absent_anyway a b xs h c d = elim (Bool-cases (pair_eq (a, b) (c, d))) [
  | inl e ↦ ground (arith, contains_congr xs (a, b) (c, d) e, h, e)
  | inr e ↦ ground (arith, e)
]
