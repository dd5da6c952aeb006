-- ===== src/Prelude/Keys.antt =====
-- What the containers of the program ask of a key: `operator==` and `operator<`.
use my_net_core_proxy.Prelude.{◌≡◌, Bool, true, false}

pub record Key (A : Type 0) : Type 0 where
  pub eq : A → A → Bool
  pub lt : A → A → Bool
  pub eq_refl : (a : A) → eq a a ≡ true
  pub eq_sym : (a b : A) → eq a b ≡ true → eq b a ≡ true
  pub eq_trans : (a b c : A) → eq a b ≡ true → eq b c ≡ true → eq a c ≡ true
  pub lt_irrefl : (a b : A) → eq a b ≡ true → lt a b ≡ false
  pub lt_trans : (a b c : A) → lt a b ≡ true → lt b c ≡ true → lt a c ≡ true
  pub lt_total : (a b : A) → lt a b ≡ false → lt b a ≡ false → eq a b ≡ true
