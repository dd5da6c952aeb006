-- ===== src/Prelude/Text.antt =====
-- `std::string` as its bytes: `find`, and what it finds.
use my_net_core_proxy.Prelude.{
  ℕ, zero, suc, ◌+◌, ◌≤◌, ◌≡◌, ◌≢◌, refl, sym, ◌∙◌, ap, List, [], ◌∷◌, ◌++◌, Bool, true, false,
  ◌&&◌, ◌==◌, leb, if◌then◌else◌, Option, none, some, get_elem?, length, take, drop, length-append,
  length-take, length-drop, append_assoc, take-append_length, leb→le, arith, Bool-cases, ◌⊎◌, inl,
  inr,
}

unfoldable pub is_prefix : List ℕ → List ℕ → Bool
is_prefix [] s = true
is_prefix (p ∷ ps) [] = false
is_prefix (p ∷ ps) (c ∷ cs) = (p == c) && is_prefix ps cs

unfoldable pub next : Option ℕ → Option ℕ
next none = none
next (some i) = some (suc i)

unfoldable pub shift : ℕ → Option ℕ → Option ℕ
shift n none = none
shift n (some i) = some (n + i)

unfoldable pub find_first : List ℕ → List ℕ → Option ℕ
find_first p [] = if is_prefix p [] then some 0 else none
find_first p (c ∷ cs) =
    let rest = find_first p cs in if is_prefix p (c ∷ cs) then some 0 else next rest

-- `s.find(p, start)`; `none` is `npos`.
unfoldable pub find : List ℕ → List ℕ → ℕ → Option ℕ
unfolding find_first is_prefix next shift
find p s start = if leb start (length s) then shift start (find_first p (drop start s)) else none

next_some : (o : Option ℕ) (i : ℕ) → next o ≡ some i → (j : ℕ) × (i ≡ suc j) × (o ≡ some j)
unfolding next
next_some none i e = ground arith
next_some (some j) i e = (j, ground arith, refl)

is_prefix-take :
    (p s t : List ℕ) (n : ℕ)
    → length p ≤ n
    → n ≤ length s
    → is_prefix p (take n s ++ t) ≡ is_prefix p s
unfolding is_prefix
is_prefix-take [] s t n h k = refl
is_prefix-take (p ∷ ps) [] t n h k = absurd (omega arith)
is_prefix-take (p ∷ ps) (c ∷ cs) t zero h k = absurd (omega arith)
is_prefix-take (p ∷ ps) (c ∷ cs) t (suc n) h k =
    ap (λ b. (p == c) && b) (is_prefix-take ps cs t n (omega arith) (omega arith))

is_prefix-split : (p s : List ℕ) → is_prefix p s ≡ true → s ≡ p ++ drop (length p) s
unfolding is_prefix
is_prefix-split [] s e = refl
is_prefix-split (p ∷ ps) [] e = ground arith
is_prefix-split (p ∷ ps) (c ∷ cs) e =
    let same : p ≡ c = ground arith in
    let inner : is_prefix ps cs ≡ true = ground arith in
    ap (λ k. k ∷ cs) (sym same) ∙ ap (◌∷◌ p) (is_prefix-split ps cs inner)

pub is_prefix-append : (p t : List ℕ) → is_prefix p (p ++ t) ≡ true
unfolding is_prefix
is_prefix-append [] t = refl
is_prefix-append (p ∷ ps) t = ground (arith, is_prefix-append ps t)

pub find_first_here : (p s : List ℕ) → is_prefix p s ≡ true → find_first p s ≡ some 0
unfolding find_first
find_first_here p [] h = ground arith
find_first_here p (c ∷ cs) h = ground arith

find_first_later :
    (p cs : List ℕ) (c j : ℕ)
    → is_prefix p (c ∷ cs) ≡ false
    → find_first p cs ≡ some j
    → find_first p (c ∷ cs) ≡ some (suc j)
unfolding find_first next
find_first_later p cs c j h e = ground arith

find_first-nil : (p : List ℕ) (i : ℕ) → find_first p [] ≡ some i → (p ≡ []) × (i ≡ 0)
unfolding find_first is_prefix
find_first-nil [] i e = (refl, ground arith)
find_first-nil (p ∷ ps) i e = ground arith

-- Text is found at its start, or where it is found in the rest.
find_first-cons :
    (p cs : List ℕ) (c i : ℕ)
    → find_first p (c ∷ cs) ≡ some i
    → ((is_prefix p (c ∷ cs) ≡ true) × (i ≡ 0))
      ⊎ ((j : ℕ) × (i ≡ suc j) × (is_prefix p (c ∷ cs) ≡ false) × (find_first p cs ≡ some j))
unfolding find_first
find_first-cons p cs c i e = elim (Bool-cases (is_prefix p (c ∷ cs))) [
  | inl h ↦ inl (h, ground arith)
  | inr h ↦
      let (j, at, found) = next_some (find_first p cs) i (ground arith) in inr (j, at, h, found)
]

is_prefix-length : (p s : List ℕ) → is_prefix p s ≡ true → length p ≤ length s
unfolding is_prefix
is_prefix-length [] s e = omega arith
is_prefix-length (p ∷ ps) [] e = ground arith
is_prefix-length (p ∷ ps) (c ∷ cs) e = ground (arith, is_prefix-length ps cs)

-- What is found lies inside the text.
pub find_first-inside : (p s : List ℕ) (i : ℕ) → find_first p s ≡ some i → i + length p ≤ length s
find_first-inside p [] i e = let (a, b) = find_first-nil p i e in rw (a, b) (omega arith)
find_first-inside p (c ∷ cs) i e = elim (find_first-cons p cs c i e) [
  | inl (h, at) ↦ omega (arith, is_prefix-length p (c ∷ cs) h)
  | inr (j, at, h, found) ↦ omega (arith, find_first-inside p cs j found)
]

-- The text in front of what is found, and the text behind it, make up the whole with it.
pub find_first-split :
    (p s : List ℕ) (i : ℕ) → find_first p s ≡ some i → s ≡ take i s ++ (p ++ drop (i + length p) s)
find_first-split p [] i e = let (a, b) = find_first-nil p i e in rw (a, b) refl
find_first-split p (c ∷ cs) i e = elim (find_first-cons p cs c i e) [
  | inl (h, at) ↦
      let z : 0 + length p ≡ length p = omega arith in rw (at, z) (is_prefix-split p (c ∷ cs) h)
  | inr (j, at, h, found) ↦
      let z : suc j + length p ≡ suc (j + length p) = omega arith in
      rw (at, z) (ap (◌∷◌ c) (find_first-split p cs j found))
]

-- What is found is found again when the text behind it is replaced.
pub find_first-replaced :
    (p s t : List ℕ) (i : ℕ)
    → find_first p s ≡ some i
    → find_first p (take (i + length p) s ++ t) ≡ some i
find_first-replaced p [] t i e =
    let (a, b) = find_first-nil p i e in rw (a, b) (find_first_here [] t (unfold is_prefix in refl))
find_first-replaced p (c ∷ cs) t i e =
    let inside : i + length p ≤ length (c ∷ cs) = find_first-inside p (c ∷ cs) i e in
    let same : is_prefix p (take (i + length p) (c ∷ cs) ++ t) ≡ is_prefix p (c ∷ cs) =
      is_prefix-take p (c ∷ cs) t (i + length p) (omega arith) inside in
    elim (find_first-cons p cs c i e) [
      | inl (h, at) ↦
          find_first_here p (take (i + length p) (c ∷ cs) ++ t) (same ∙ h) ∙ ap some (sym at)
      | inr (j, at, h, found) ↦
          let z : i + length p ≡ suc (j + length p) = omega arith in
          let no : is_prefix p (c ∷ (take (j + length p) cs ++ t)) ≡ false =
            ap (λ k. is_prefix p (take k (c ∷ cs) ++ t)) (sym z) ∙ same ∙ h in
          rw (z, at)
            (find_first_later p (take (j + length p) cs ++ t) c j no
              (find_first-replaced p cs t j found))
    ]

-- The first character of `p`, where it does not stand in `s`, makes `p` be found behind `s`.
pub find_first-absent :
    (p : ℕ) (ps s t : List ℕ)
    → ((i : ℕ) → get_elem? s i ≢ some p)
    → find_first (p ∷ ps) (s ++ (p ∷ ps ++ t)) ≡ some (length s)
unfolding is_prefix
find_first-absent p ps [] t h =
    find_first_here (p ∷ ps) (p ∷ (ps ++ t)) (is_prefix-append (p ∷ ps) t)
find_first-absent p ps (c ∷ cs) t h =
    let differs : (p == c) ≡ false = ground (arith, h 0) in
    find_first_later (p ∷ ps) (cs ++ (p ∷ ps ++ t)) c (length cs) (ground arith)
      (find_first-absent p ps cs t (λ i. h (suc i)))

pub find_first-take :
    (p s : List ℕ) (i : ℕ) → find_first p s ≡ some i → take (i + length p) s ≡ take i s ++ p
find_first-take p s i e =
    let inside : i + length p ≤ length s = find_first-inside p s i e in
    let n : i + length p ≡ length (take i s ++ p) =
      omega (arith, length-append (take i s) p, length-take i s) in
    let whole : s ≡ (take i s ++ p) ++ drop (i + length p) s =
      find_first-split p s i e ∙ sym (append_assoc (take i s) p (drop (i + length p) s)) in
    ap (λ k. take k s) n
    ∙ ap (take (length (take i s ++ p))) whole
    ∙ take-append_length (take i s ++ p) (drop (i + length p) s)

-- `find` answers with a place from `start` on, inside the text.
pub find-bounds :
    (p s : List ℕ) (start i : ℕ) → find p s start ≡ some i → (start ≤ i) × (i + length p ≤ length s)
unfolding find shift
find-bounds p s start i e = elim (Bool-cases (leb start (length s))) [
  | inr h ↦ ground arith
  | inl h ↦
      let (j, at, found) = shift_some start (find_first p (drop start s)) i (ground arith) in
      omega (
        arith,
        find_first-inside p (drop start s) j found,
        length-drop start s,
        leb→le start (length s) h,
      )
]
  where
    shift_some :
        (n : ℕ) (o : Option ℕ) (i : ℕ) → shift n o ≡ some i → (j : ℕ) × (i ≡ n + j) × (o ≡ some j)
    shift_some n none i e = ground arith
    shift_some n (some j) i e = (j, ground arith, refl)
