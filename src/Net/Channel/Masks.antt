-- ===== src/Net/Channel/Masks.antt =====
-- net/channel.cpp: the masks that a channel can have, and what the tests say of them.
use Prim.Native.Nat.{bit_and, bit_or}
use my_net_core_proxy.Prelude.{ℕ, ◌≡◌, refl, ◌⊎◌, inl, inr, true, false, ◌==◌, not, ◌-◌, ◌^◌}
use my_net_core_proxy.Net.Channel.{
  Channel, add_reading, drop_reading, add_writing, drop_writing, is_reading, is_writing,
}

-- The masks that the methods make: reading, writing, both or neither.
abbrev pub IsMask : ℕ → Type 0
IsMask e = (e ≡ 0) ⊎ (e ≡ 1) ⊎ (e ≡ 4) ⊎ (e ≡ 5)

add_reading-IsMask :
    (e : ℕ)
    → IsMask e
    → IsMask (bit_or e 1)
      × (not (bit_and (bit_or e 1) 1 == 0) ≡ true)
      × (not (bit_and (bit_or e 1) 4 == 0) ≡ not (bit_and e 4 == 0))
add_reading-IsMask e (inl p) = rw p (inr (inl refl), refl, refl)
add_reading-IsMask e (inr (inl p)) = rw p (inr (inl refl), refl, refl)
add_reading-IsMask e (inr (inr (inl p))) = rw p (inr (inr (inr refl)), refl, refl)
add_reading-IsMask e (inr (inr (inr p))) = rw p (inr (inr (inr refl)), refl, refl)

pub interests-add_reading :
    (c : Channel)
    → IsMask c.events
    → IsMask (add_reading c).events
      × (is_reading (add_reading c) ≡ true)
      × (is_writing (add_reading c) ≡ is_writing c)
unfolding add_reading is_reading is_writing
interests-add_reading c m = add_reading-IsMask c.events m

drop_reading-IsMask :
    (e : ℕ)
    → IsMask e
    → IsMask (bit_and e (2 ^ 32 - 1 - 1))
      × (not (bit_and (bit_and e (2 ^ 32 - 1 - 1)) 1 == 0) ≡ false)
      × (not (bit_and (bit_and e (2 ^ 32 - 1 - 1)) 4 == 0) ≡ not (bit_and e 4 == 0))
drop_reading-IsMask e (inl p) = rw p (inl refl, refl, refl)
drop_reading-IsMask e (inr (inl p)) = rw p (inl refl, refl, refl)
drop_reading-IsMask e (inr (inr (inl p))) = rw p (inr (inr (inl refl)), refl, refl)
drop_reading-IsMask e (inr (inr (inr p))) = rw p (inr (inr (inl refl)), refl, refl)

pub interests-drop_reading :
    (c : Channel)
    → IsMask c.events
    → IsMask (drop_reading c).events
      × (is_reading (drop_reading c) ≡ false)
      × (is_writing (drop_reading c) ≡ is_writing c)
unfolding drop_reading is_reading is_writing
interests-drop_reading c m = drop_reading-IsMask c.events m

add_writing-IsMask :
    (e : ℕ)
    → IsMask e
    → IsMask (bit_or e 4)
      × (not (bit_and (bit_or e 4) 1 == 0) ≡ not (bit_and e 1 == 0))
      × (not (bit_and (bit_or e 4) 4 == 0) ≡ true)
add_writing-IsMask e (inl p) = rw p (inr (inr (inl refl)), refl, refl)
add_writing-IsMask e (inr (inl p)) = rw p (inr (inr (inr refl)), refl, refl)
add_writing-IsMask e (inr (inr (inl p))) = rw p (inr (inr (inl refl)), refl, refl)
add_writing-IsMask e (inr (inr (inr p))) = rw p (inr (inr (inr refl)), refl, refl)

interests-add_writing :
    (c : Channel)
    → IsMask c.events
    → IsMask (add_writing c).events
      × (is_reading (add_writing c) ≡ is_reading c)
      × (is_writing (add_writing c) ≡ true)
unfolding add_writing is_reading is_writing
interests-add_writing c m = add_writing-IsMask c.events m

drop_writing-IsMask :
    (e : ℕ)
    → IsMask e
    → IsMask (bit_and e (2 ^ 32 - 1 - 4))
      × (not (bit_and (bit_and e (2 ^ 32 - 1 - 4)) 1 == 0) ≡ not (bit_and e 1 == 0))
      × (not (bit_and (bit_and e (2 ^ 32 - 1 - 4)) 4 == 0) ≡ false)
drop_writing-IsMask e (inl p) = rw p (inl refl, refl, refl)
drop_writing-IsMask e (inr (inl p)) = rw p (inr (inl refl), refl, refl)
drop_writing-IsMask e (inr (inr (inl p))) = rw p (inl refl, refl, refl)
drop_writing-IsMask e (inr (inr (inr p))) = rw p (inr (inl refl), refl, refl)

interests-drop_writing :
    (c : Channel)
    → IsMask c.events
    → IsMask (drop_writing c).events
      × (is_reading (drop_writing c) ≡ is_reading c)
      × (is_writing (drop_writing c) ≡ false)
unfolding drop_writing is_reading is_writing
interests-drop_writing c m = drop_writing-IsMask c.events m

-- On a mask of reading, writing, both or neither, each of enableReading, disableReading,
-- enableWriting and disableWriting makes such a mask again, sets or clears its own flag, and
-- leaves the other flag.
pub changes-IsMask :
    (c : Channel)
    → IsMask c.events
    → (IsMask (add_reading c).events
        × (is_reading (add_reading c) ≡ true)
        × (is_writing (add_reading c) ≡ is_writing c))
      × (IsMask (drop_reading c).events
          × (is_reading (drop_reading c) ≡ false)
          × (is_writing (drop_reading c) ≡ is_writing c))
      × (IsMask (add_writing c).events
          × (is_reading (add_writing c) ≡ is_reading c)
          × (is_writing (add_writing c) ≡ true))
      × (IsMask (drop_writing c).events
          × (is_reading (drop_writing c) ≡ is_reading c)
          × (is_writing (drop_writing c) ≡ false))
changes-IsMask c m = (
  interests-add_reading c m,
  interests-drop_reading c m,
  interests-add_writing c m,
  interests-drop_writing c m,
)
