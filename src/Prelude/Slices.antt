-- ===== src/Prelude/Slices.antt =====
-- Byte storage: reading a range, overwriting one, `std::copy` and `std::vector::resize`.
use my_net_core_proxy.Prelude.{
  ℕ, zero, suc, ◌+◌, ◌-◌, ◌≤◌, ◌≡◌, refl, ap, List, [], ◌∷◌, ◌++◌, arith, length, take, drop,
  replicate, length-append, length-take, length-drop, length-replicate, take-append_le, take_all,
  take-append_length, Result, ok, check, ◌>>=◌, ◌>>◌, out_of_bounds, overlap, leb, ltb, ◌||◌,
}

-- The `n` bytes from index `i` on.
abbrev pub slice : List ℕ → ℕ → ℕ → List ℕ
slice m i n = take n (drop i m)

-- `xs` written over the bytes from index `i` on.
unfoldable pub overwrite : List ℕ → ℕ → List ℕ → List ℕ
overwrite m i xs = take i m ++ (xs ++ drop (i + length xs) m)

-- `std::string(p, n)`: the whole range has to lie in the storage.
unfoldable pub load : List ℕ → ℕ → ℕ → Result (List ℕ)
load m i n = do check (leb (i + n) (length m)) out_of_bounds; ok (slice m i n)

-- `std::copy` from other memory to index `i`.
unfoldable pub store : List ℕ → ℕ → List ℕ → Result (List ℕ)
store m i xs = do check (leb (i + length xs) (length m)) out_of_bounds; ok (overwrite m i xs)

-- `std::copy(first, last, dest)` inside one storage. A target inside the source is not allowed.
unfoldable pub move : List ℕ → ℕ → ℕ → ℕ → Result (List ℕ)
unfolding load store
move m first last dest = do
  check (ltb dest first || leb last dest) overlap
  xs ← load m first (last - first)
  store m dest xs

-- The contents of a vector after `resize(n)`: cut off, or filled up with zeros.
unfoldable pub resize : List ℕ → ℕ → List ℕ
resize m n = take n m ++ replicate (n - length m) 0

pub length-slice : (m : List ℕ) (i n : ℕ) → i + n ≤ length m → length (slice m i n) ≡ n
length-slice m i n h = omega (arith, length-take n (drop i m), length-drop i m)

pub length-overwrite :
    (m : List ℕ) (i : ℕ) (xs : List ℕ)
    → i + length xs ≤ length m
    → length (overwrite m i xs) ≡ length m
unfolding overwrite
length-overwrite m i xs h = omega (
  arith,
  length-append (take i m) (xs ++ drop (i + length xs) m),
  length-append xs (drop (i + length xs) m),
  length-take i m,
  length-drop (i + length xs) m,
)

pub length-resize : (m : List ℕ) (n : ℕ) → length (resize m n) ≡ n
unfolding resize
length-resize m n = omega (
  arith,
  length-append (take n m) (replicate (n - length m) 0),
  length-take n m,
  length-replicate {A = ℕ} (n - length m) 0,
)

take-append_add : (xs ys : List ℕ) (n : ℕ) → take (length xs + n) (xs ++ ys) ≡ xs ++ take n ys
take-append_add [] ys n = ap (λ k. take k ys) (omega arith)
take-append_add (x ∷ xs) ys n =
    let e : suc (length xs) + n ≡ suc (length xs + n) = omega arith in
    rw e (ap (◌∷◌ x) (take-append_add xs ys n))

drop-append_le : (n : ℕ) (xs ys : List ℕ) → n ≤ length xs → drop n (xs ++ ys) ≡ drop n xs ++ ys
drop-append_le zero xs ys h = refl
drop-append_le (suc n) [] ys h = absurd (omega arith)
drop-append_le (suc n) (x ∷ xs) ys h = drop-append_le n xs ys (omega arith)

pub drop-take : (r i : ℕ) (m : List ℕ) → drop r (take i m) ≡ take (i - r) (drop r m)
drop-take zero i m = ap (λ k. take k m) (omega arith)
drop-take (suc r) zero m = let e : 0 - suc r ≡ 0 = omega arith in rw e refl
drop-take (suc r) (suc i) [] = drop-take_nil (suc i - suc r)
  where
    drop-take_nil : (k : ℕ) → [] ≡ take {A = ℕ} k []
    drop-take_nil zero = refl
    drop-take_nil (suc k) = refl
drop-take (suc r) (suc i) (x ∷ m) =
    let e : suc i - suc r ≡ i - r = omega arith in rw e (drop-take r i m)

-- Bytes written where a range ends extend that range.
pub slice-overwrite_end :
    (m : List ℕ) (r n : ℕ) (xs : List ℕ)
    → r + n + length xs ≤ length m
    → slice (overwrite m (r + n) xs) r (n + length xs) ≡ slice m r n ++ xs
unfolding overwrite
slice-overwrite_end m r n xs h =
    let e : r + n - r ≡ n = omega arith in
    let l : length (slice m r n) ≡ n = length-slice m r n (omega arith) in
    let front : take (n + length xs) (slice m r n ++ (xs ++ drop (r + n + length xs) m))
        ≡ slice m r n ++ take (length xs) (xs ++ drop (r + n + length xs) m) =
      rw l at (take-append_add (slice m r n) (xs ++ drop (r + n + length xs) m) (length xs)) in
    rw
      (
        drop-append_le r (take (r + n) m) (xs ++ drop (r + n + length xs) m)
            (omega (arith, length-take (r + n) m)),
        drop-take r (r + n) m,
        e,
        front,
      )
      (ap (◌++◌ (slice m r n)) (take-append_length xs _))

drop-take-append : (i : ℕ) (m ys : List ℕ) → i ≤ length m → drop i (take i m ++ ys) ≡ ys
drop-take-append zero m ys h = refl
drop-take-append (suc i) [] ys h = absurd (omega arith)
drop-take-append (suc i) (x ∷ m) ys h = drop-take-append i m ys (omega arith)

-- Bytes written from an index on are found there, in front of the bytes behind them.
pub slice-overwrite_start :
    (m : List ℕ) (i n : ℕ) (xs : List ℕ)
    → i + length xs ≤ length m
    → slice (overwrite m i xs) i (length xs + n) ≡ xs ++ slice m (i + length xs) n
unfolding overwrite
slice-overwrite_start m i n xs h =
    rw (drop-take-append i m (xs ++ drop (i + length xs) m) (omega arith)) (take-append_add xs _ n)

-- The same for the written bytes alone.
pub slice-overwrite_self :
    (m : List ℕ) (i : ℕ) (xs : List ℕ)
    → i + length xs ≤ length m
    → slice (overwrite m i xs) i (length xs) ≡ xs
unfolding overwrite
slice-overwrite_self m i xs h =
    rw (drop-take-append i m (xs ++ drop (i + length xs) m) (omega arith)) (take-append_length xs _)

-- Growing the storage keeps every range inside the old one.
pub slice-resize :
    (m : List ℕ) (k i n : ℕ)
    → i + n ≤ length m
    → length m ≤ k
    → slice (resize m k) i n ≡ slice m i n
unfolding resize
slice-resize m k i n h hk =
    rw (take_all k m hk, drop-append_le i m (replicate (k - length m) 0) (omega arith))
      (take-append_le n (drop i m) (replicate (k - length m) 0) (omega (arith, length-drop i m)))
