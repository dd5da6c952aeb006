-- ===== src/Prelude/Pairs.antt =====
-- `std::pair` of two numbers, with `==` and `<` as the ordered containers use them.
use my_net_core_proxy.Prelude.{ℕ, ◌≡◌, Bool, true, false, ◌&&◌, ◌||◌, ◌==◌, ltb, arith}
use my_net_core_proxy.Prelude.Keys.{Key}

abbrev pub pair_eq : ℕ × ℕ → ℕ × ℕ → Bool
pair_eq (a, b) (c, d) = a == c && b == d

abbrev pub pair_lt : ℕ × ℕ → ℕ × ℕ → Bool
pair_lt (a, b) (c, d) = ltb a c || (a == c && ltb b d)

pub pair_eq_refl : (a : ℕ × ℕ) → pair_eq a a ≡ true
pair_eq_refl (a, b) = ground arith

pub pair_eq_sym : (a b : ℕ × ℕ) → pair_eq a b ≡ true → pair_eq b a ≡ true
pair_eq_sym (a, b) (c, d) h = ground arith

pub pair_eq_trans : (a b c : ℕ × ℕ) → pair_eq a b ≡ true → pair_eq b c ≡ true → pair_eq a c ≡ true
pair_eq_trans (a, b) (c, d) (e, f) h k = ground arith

pub pair_lt_irrefl : (a b : ℕ × ℕ) → pair_eq a b ≡ true → pair_lt a b ≡ false
pair_lt_irrefl (a, b) (c, d) h = ground arith

pub pair_lt_trans : (a b c : ℕ × ℕ) → pair_lt a b ≡ true → pair_lt b c ≡ true → pair_lt a c ≡ true
pair_lt_trans (a, b) (c, d) (e, f) h k = ground arith

pub pair_lt_total : (a b : ℕ × ℕ) → pair_lt a b ≡ false → pair_lt b a ≡ false → pair_eq a b ≡ true
pair_lt_total (a, b) (c, d) h k = ground arith

instance abbrev pub pair_key : Key (ℕ × ℕ)
pair_key = record {
  eq = pair_eq;
  lt = pair_lt;
  eq_refl = pair_eq_refl;
  eq_sym = pair_eq_sym;
  eq_trans = pair_eq_trans;
  lt_irrefl = pair_lt_irrefl;
  lt_trans = pair_lt_trans;
  lt_total = pair_lt_total;
}
