-- ===== src/Prelude/Faults.antt =====
-- The ways in which a call stops without a result, and the chain of calls that may stop.
use mathlib.Core.Bool.{Bool, true, false}

-- `assertion`: a failed `assert`; `out_of_bounds`: an access outside an object's storage;
-- `overlap`: a `std::copy` whose target starts inside its source; `length_error`: what
-- `std::vector::resize` throws; `div_by_zero`: a remainder by 0; `overflow`: a signed sum past its type;
-- `dangling`: a use or a `delete` of an object that does not live.
pub data Fault : Type 0 where
  assertion out_of_bounds overlap length_error div_by_zero overflow dangling : Fault

pub data Result {ℓ} (A : Type ℓ) : Type ℓ where
  ok : A → Result A
  fault : Fault → Result A

infixl 5 ◌>>=◌ ◌>>◌
abbrev pub ◌>>=◌ {ℓ κ} : {A : Type ℓ} {B : Type κ} → Result A → (A → Result B) → Result B
ok a >>= f = f a
fault e >>= f = fault e

abbrev pub ◌>>◌ {ℓ} : {B : Type ℓ} → Result (Unit {0}) → Result B → Result B
m >> k = m >>= λ _. k

-- `assert(b)`, and any other test whose failure stops the call.
abbrev pub check : Bool → Fault → Result (Unit {0})
check true e = ok tt
check false e = fault e
