-- ===== src/Prelude/Sets.antt =====
-- `std::set` as the list of its elements in order, by the operations that the program uses.
pub mod Order
pub mod Pairs
use my_net_core_proxy.Prelude.{Bool, true, false, not, ◌&&◌, List, [], ◌∷◌, if◌then◌else◌}
use my_net_core_proxy.Prelude.Keys.{Key}

module _ {A : Type 0} ⦃k : Key A⦄ where
  -- `std::set::insert` on the elements in order.
  unfoldable pub set_insert : A → List A → List A
  set_insert a [] = a ∷ []
  set_insert a (x ∷ xs) =
      if k.lt a x then a ∷ x ∷ xs else if k.lt x a then x ∷ set_insert a xs else x ∷ xs

  -- `std::set::erase` by key.
  unfoldable pub set_erase : A → List A → List A
  set_erase a [] = []
  set_erase a (x ∷ xs) = if not (k.lt a x) && not (k.lt x a) then xs else x ∷ set_erase a xs

  -- `std::find(...) != end()`.
  unfoldable pub contains : List A → A → Bool
  contains [] a = false
  contains (x ∷ xs) a = if k.eq x a then true else contains xs a

  -- What stands in front of `std::set::lower_bound(a)`, and what from there on.
  unfoldable pub before : A → List A → List A
  before a [] = []
  before a (x ∷ xs) = let rest = before a xs in if k.lt x a then x ∷ rest else []

  unfoldable pub from : A → List A → List A
  from a [] = []
  from a (x ∷ xs) = let rest = from a xs in if k.lt x a then rest else x ∷ xs
