-- ===== src/Prelude/Sets/Order.antt =====
-- What insert and erase do to a `std::set`: the order of its elements, and which are there.
use my_net_core_proxy.Prelude.{◌≡◌, refl, true, false, List, [], ◌∷◌, arith, if◌then◌else◌}
use my_net_core_proxy.Prelude.Keys.{Key}
use my_net_core_proxy.Prelude.Sets.{contains, set_insert, set_erase}

module _ {A : Type 0} ⦃k : Key A⦄ where
  -- Equal keys are found alike.
  pub contains_congr : (xs : List A) (a b : A) → k.eq a b ≡ true → contains xs a ≡ contains xs b
  unfolding contains
  contains_congr [] a b e = refl
  contains_congr (x ∷ xs) a b e =
      ground (arith, contains_congr xs a b e, k.eq_trans x a b, k.eq_trans x b a, k.eq_sym a b)

  abbrev pub Above : A → List A → Type 0
  Above a [] = Unit {0}
  Above a (x ∷ xs) = (k.lt a x ≡ true) × Above a xs

  -- In strictly ascending order, as a `std::set` keeps its keys.
  abbrev pub Ascending : List A → Type 0
  Ascending [] = Unit {0}
  Ascending (x ∷ xs) = Above x xs × Ascending xs

  pub Above-trans : (a b : A) (xs : List A) → k.lt a b ≡ true → Above b xs → Above a xs
  Above-trans a b [] h v = tt
  Above-trans a b (x ∷ xs) h v = (k.lt_trans a b x h v.0, Above-trans a b xs h v.1)

  pub Above-absent : (a : A) (xs : List A) → Above a xs → contains xs a ≡ false
  unfolding contains
  Above-absent a [] v = refl
  Above-absent a (x ∷ xs) v = ground (arith, k.lt_irrefl a x, k.eq_sym x a, Above-absent a xs v.1)

  Above-set_insert :
      (a b : A) (xs : List A) → k.lt a b ≡ true → Above a xs → Above a (set_insert b xs)
  unfolding set_insert
  Above-set_insert a b [] h v = (h, tt)
  Above-set_insert a b (x ∷ xs) h v = ground (arith, Above-set_insert a b xs h v.1)

  pub set_insert-Ascending : (a : A) (xs : List A) → Ascending xs → Ascending (set_insert a xs)
  unfolding set_insert
  set_insert-Ascending a [] v = (tt, tt)
  set_insert-Ascending a (x ∷ xs) v =
      ground (arith, set_insert-Ascending a xs v.1, Above-trans a x xs, Above-set_insert x a xs)

  Above-set_erase : (a b : A) (xs : List A) → Above a xs → Above a (set_erase b xs)
  unfolding set_erase
  Above-set_erase a b [] v = tt
  Above-set_erase a b (x ∷ xs) v = ground (arith, Above-set_erase a b xs v.1)

  pub set_erase-Ascending : (a : A) (xs : List A) → Ascending xs → Ascending (set_erase a xs)
  unfolding set_erase
  set_erase-Ascending a [] v = tt
  set_erase-Ascending a (x ∷ xs) v =
      ground (arith, set_erase-Ascending a xs v.1, Above-set_erase x a xs v.0)

  pub contains-set_insert :
      (a b : A) (xs : List A)
      → contains (set_insert a xs) b ≡ (if k.eq a b then true else contains xs b)
  unfolding contains set_insert
  contains-set_insert a b [] = refl
  contains-set_insert a b (x ∷ xs) =
      ground (arith, contains-set_insert a b xs, k.lt_total a x, k.eq_sym a x, k.eq_trans x a b)

  pub contains-set_erase :
      (a b : A) (xs : List A)
      → Ascending xs
      → contains (set_erase a xs) b ≡ (if k.eq a b then false else contains xs b)
  unfolding contains set_erase
  contains-set_erase a b [] v = ground arith
  contains-set_erase a b (x ∷ xs) v = ground (
    arith,
    contains-set_erase a b xs v.1,
    contains_congr xs x b,
    Above-absent x xs v.0,
    k.lt_total a x,
    k.lt_irrefl a x,
    k.lt_irrefl x a,
    k.eq_sym a x,
    k.eq_sym a b,
    k.eq_sym x b,
    k.eq_trans a x b,
    k.eq_trans a b x,
    k.eq_trans x b a,
    k.eq_trans x a b,
  )
