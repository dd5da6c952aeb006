-- ===== src/App/HttpProxyHandler/Target.antt =====
-- app/http_proxy_handler.cpp: the backend that a path leads to.
use my_net_core_proxy.Prelude.{
  ℕ, zero, suc, ◌+◌, ◌/◌, ◌%◌, ◌^◌, ◌≤◌, ◌<◌, ◌≡◌, refl, sym, ◌∙◌, ap, ◌⊎◌, inl, inr, ltb, false,
  none, some, List, [], ◌∷◌, ◌++◌, length, take, drop, length-append, Bool-cases, arith,
  take-append_length, drop-append_length, append_assoc,
}
use my_net_core_proxy.Prelude.Decimal.{digits, to_string, value, value-to_string}
use my_net_core_proxy.Prelude.Text.{find, find_first-absent}
use my_net_core_proxy.Net.Channel.{ℤ, pos}
use my_net_core_proxy.App.HttpProxyHandler.{
  backend, stoi, signed, magnitude, skip_spaces, leading_digits, uint16, lookup, resolve_address,
  resolve,
}
use my_net_core_proxy.App.HttpProxyHandler.Parsing.{Absent, find_start}

leading_digits-cons :
    (c : ℕ) (cs : List ℕ)
    → leading_digits (c ∷ cs) ≡ c ∷ cs
    → (48 ≤ c) × (c ≤ 57) × (leading_digits cs ≡ cs)
unfolding leading_digits
leading_digits-cons c cs e = ground arith

leading_digits-append :
    (xs ys : List ℕ)
    → leading_digits xs ≡ xs
    → leading_digits ys ≡ ys
    → leading_digits (xs ++ ys) ≡ xs ++ ys
unfolding leading_digits
leading_digits-append [] ys e f = f
leading_digits-append (x ∷ xs) ys e f =
    let (low, high, rest) = leading_digits-cons x xs e in
    ground (arith, leading_digits-append xs ys rest f)

leading_digits-digits : (fuel n : ℕ) → leading_digits (digits fuel n) ≡ digits fuel n
unfolding digits leading_digits
leading_digits-digits zero n = refl
leading_digits-digits (suc fuel) n = elim (Bool-cases (ltb n 10)) [
  | inl h ↦ ground arith
  | inr h ↦
      let last : leading_digits ((48 + n % 10) ∷ []) ≡ (48 + n % 10) ∷ [] = ground arith in
      ground (
        arith,
        leading_digits-append (digits fuel (n / 10)) ((48 + n % 10) ∷ [])
            (leading_digits-digits fuel (n / 10)) last,
      )
]

some_digit : (n : ℕ) → (c : ℕ) × (cs : List ℕ) × (to_string n ≡ c ∷ cs)
unfolding to_string digits
some_digit n = elim (Bool-cases (ltb n 10)) [
  | inl h ↦ (48 + n, [], ground arith)
  | inr h ↦ by_front (digits n (n / 10)) (ground arith)
]
  where
    by_front :
        (front : List ℕ)
        → to_string n ≡ front ++ (48 + n % 10) ∷ []
        → (c : ℕ) × (cs : List ℕ) × (to_string n ≡ c ∷ cs)
    by_front [] e = (48 + n % 10, [], e)
    by_front (x ∷ xs) e = (x, xs ++ (48 + n % 10) ∷ [], e)

stoi-number :
    (c : ℕ) (cs : List ℕ)
    → leading_digits (c ∷ cs) ≡ c ∷ cs
    → value 0 (c ∷ cs) < 2 ^ 31
    → stoi (c ∷ cs) ≡ some (pos (value 0 (c ∷ cs)))
unfolding stoi signed magnitude skip_spaces
stoi-number c cs e h =
    let (low, high, rest) = leading_digits-cons c cs e in
    let plain : skip_spaces (c ∷ cs) ≡ c ∷ cs = ground arith in
    let whole : magnitude false (leading_digits (c ∷ cs)) ≡ some (pos (value 0 (c ∷ cs))) =
      ap (magnitude false) e ∙ ground arith in
    let unsigned : signed (c ∷ cs) ≡ magnitude false (leading_digits (c ∷ cs)) = ground arith in
    ap signed plain ∙ unsigned ∙ whole

-- stoi reads back the decimal text of every number that fits an int.
pub stoi-to_string : (n : ℕ) → n < 2 ^ 31 → stoi (to_string n) ≡ some (pos n)
stoi-to_string n h =
    let (c, cs, e) = some_digit n in
    let all : leading_digits (to_string n) ≡ to_string n =
      unfold to_string in leading_digits-digits (suc n) n in
    let v : value 0 (c ∷ cs) ≡ n = ap (value 0) (sym e) ∙ value-to_string n in
    rw e (
      stoi-number c cs (ap leading_digits (sym e) ∙ all ∙ e) (omega arith)
      ∙ ap (λ k. some (pos k)) v)

resolve_address_found :
    (a : List ℕ) (at : ℕ) (port : ℤ)
    → find (b':' ∷ []) a 0 ≡ some at
    → stoi (drop (at + 1) a) ≡ some port
    → resolve_address a ≡ backend (take at a) (uint16 port) a
unfolding resolve_address
resolve_address_found a at port e f = rw (e, f, resolve_address) refl

resolve_address_lem :
    (ip : List ℕ) (n : ℕ)
    → Absent b':' ip
    → n < 2 ^ 16
    → resolve_address (ip ++ (b':' ∷ to_string n)) ≡ backend ip n (ip ++ (b':' ∷ to_string n))
resolve_address_lem ip n h small =
    let a : List ℕ = ip ++ (b':' ∷ to_string n) in
    let colon : find (b':' ∷ []) a 0 ≡ some (length ip) =
      find_start (b':' ∷ []) a ∙ find_first-absent b':' [] ip (to_string n) h in
    let behind : drop (length ip + 1) a ≡ to_string n =
      ap (λ l. drop (length ip + 1) l) (sym (append_assoc ip (b':' ∷ []) (to_string n)))
      ∙ ap (λ k. drop k ((ip ++ b':' ∷ []) ++ to_string n)) (sym (length-append ip (b':' ∷ [])))
      ∙ drop-append_length (ip ++ b':' ∷ []) (to_string n) in
    let number : stoi (drop (length ip + 1) a) ≡ some (pos n) =
      ap stoi behind ∙ stoi-to_string n (omega arith) in
    let host : take (length ip) a ≡ ip = take-append_length ip (b':' ∷ to_string n) in
    let port : n % 2 ^ 16 ≡ n = omega arith in
    resolve_address_found a (length ip) (pos n) colon number ∙ rw (host, port) refl

-- If the table gives a path, or "/" where the path has no entry, an address of a host without a
-- colon, a colon and the decimal text of a port below 65536, startForwarding aims at that host
-- and that port.
pub resolve_lem :
    (table : List (List ℕ × List ℕ)) (path ip : List ℕ) (n : ℕ)
    → Absent b':' ip
    → n < 2 ^ 16
    → (lookup table path ≡ some (ip ++ (b':' ∷ to_string n)))
      ⊎ ((lookup table path ≡ none)
          × (lookup table (b'/' ∷ []) ≡ some (ip ++ (b':' ∷ to_string n))))
    → resolve table path ≡ backend ip n (ip ++ (b':' ∷ to_string n))
unfolding resolve
resolve_lem table path ip n h small (inl e) = rw (e, resolve) (resolve_address_lem ip n h small)
resolve_lem table path ip n h small (inr (e, f)) =
    rw (e, f, resolve) (resolve_address_lem ip n h small)
