-- ===== src/Net/InetAddress/Order.antt =====
-- net/inet_address.h: `==` and `<` on the text of an address, as the containers of addresses use them.
use my_net_core_proxy.Prelude.{
  ℕ, ◌^◌, ◌<◌, ◌≡◌, refl, sym, ◌∙◌, ap₂, subst, ◌≢◌, ◌↔◌, true, false, List, [], ◌∷◌, ◌++◌, arith,
}
use my_net_core_proxy.Prelude.Keys.{Key}
use my_net_core_proxy.Prelude.Decimal.{to_string, to_string-injective}
use my_net_core_proxy.Net.InetAddress.{
  InetAddress, InetText, string_eq, string_lt, to_ip, to_ip_port, eq, lt, new, to_port, swap16,
}

string_eq_refl : (xs : List ℕ) → string_eq xs xs ≡ true
string_eq_refl [] = refl
string_eq_refl (x ∷ xs) = ground (arith, string_eq_refl xs)

pub string_eq_sound : (xs ys : List ℕ) → string_eq xs ys ≡ true → xs ≡ ys
string_eq_sound [] [] h = refl
string_eq_sound [] (y ∷ ys) h = cc
string_eq_sound (x ∷ xs) [] h = cc
string_eq_sound (x ∷ xs) (y ∷ ys) h = ground (arith, string_eq_sound xs ys)

string_lt_irrefl : (xs : List ℕ) → string_lt xs xs ≡ false
string_lt_irrefl [] = refl
string_lt_irrefl (x ∷ xs) = ground (arith, string_lt_irrefl xs)

string_lt_trans :
    (xs ys zs : List ℕ) → string_lt xs ys ≡ true → string_lt ys zs ≡ true → string_lt xs zs ≡ true
string_lt_trans [] [] zs h k = cc
string_lt_trans [] (y ∷ ys) [] h k = cc
string_lt_trans [] (y ∷ ys) (z ∷ zs) h k = refl
string_lt_trans (x ∷ xs) [] zs h k = cc
string_lt_trans (x ∷ xs) (y ∷ ys) [] h k = cc
string_lt_trans (x ∷ xs) (y ∷ ys) (z ∷ zs) h k = ground (arith, string_lt_trans xs ys zs)

string_lt_total : (xs ys : List ℕ) → string_lt xs ys ≡ false → string_lt ys xs ≡ false → xs ≡ ys
string_lt_total [] [] h k = refl
string_lt_total [] (y ∷ ys) h k = cc
string_lt_total (x ∷ xs) [] h k = cc
string_lt_total (x ∷ xs) (y ∷ ys) h k = ground (arith, string_lt_total xs ys)

pub string_eq_complete : (xs ys : List ℕ) → xs ≡ ys → string_eq xs ys ≡ true
string_eq_complete xs ys p = rw p (string_eq_refl ys)

-- Where an address text ends: at its first ':'.
abbrev pub Plain : List ℕ → Type 0
Plain [] = Unit {0}
Plain (x ∷ xs) = (x ≢ b':') × Plain xs

split_at_colon :
    (xs ys us vs : List ℕ)
    → Plain xs
    → Plain ys
    → xs ++ (b':' ∷ us) ≡ ys ++ (b':' ∷ vs)
    → (xs ≡ ys) × (us ≡ vs)
split_at_colon [] [] us vs p q e = ground arith
split_at_colon [] (y ∷ ys) us vs p q e = ground arith
split_at_colon (x ∷ xs) [] us vs p q e = ground arith
split_at_colon (x ∷ xs) (y ∷ ys) us vs p q e = ground (arith, split_at_colon xs ys us vs)

module _ (text : InetText) where
  pub address_eq_sound :
      (a b : InetAddress) → eq text a b ≡ true → to_ip_port text a ≡ to_ip_port text b
  unfolding eq
  address_eq_sound a b h = string_eq_sound (to_ip_port text a) (to_ip_port text b) h

  pub address_eq_complete :
      (a b : InetAddress) → to_ip_port text a ≡ to_ip_port text b → eq text a b ≡ true
  unfolding eq
  address_eq_complete a b p = string_eq_complete (to_ip_port text a) (to_ip_port text b) p

  pub address_lt_irrefl : (a b : InetAddress) → eq text a b ≡ true → lt text a b ≡ false
  unfolding lt
  address_lt_irrefl a b h =
      subst (λ t. string_lt (to_ip_port text a) t ≡ false) (address_eq_sound a b h)
        (string_lt_irrefl (to_ip_port text a))

  pub address_lt_trans :
      (a b c : InetAddress) → lt text a b ≡ true → lt text b c ≡ true → lt text a c ≡ true
  unfolding lt
  address_lt_trans a b c =
      string_lt_trans (to_ip_port text a) (to_ip_port text b) (to_ip_port text c)

  pub address_lt_total :
      (a b : InetAddress) → lt text a b ≡ false → lt text b a ≡ false → eq text a b ≡ true
  unfolding lt
  address_lt_total a b h k =
      address_eq_complete a b (string_lt_total (to_ip_port text a) (to_ip_port text b) h k)

  -- Addresses are keys of the containers: `<` is a strict total order whose equality is `==`.
  abbrev pub address_key : Key InetAddress
  address_key = record {
    eq = eq text;
    lt = lt text;
    eq_refl = λ a. address_eq_complete a a refl;
    eq_sym = λ a b h. address_eq_complete b a (sym (address_eq_sound a b h));
    eq_trans =
        λ a b c h k. address_eq_complete a c (address_eq_sound a b h ∙ address_eq_sound b c k);
    lt_irrefl = address_lt_irrefl;
    lt_trans = address_lt_trans;
    lt_total = address_lt_total;
  }

  -- If inet_ntop is injective and writes no ':', two addresses are equal exactly when their IP
  -- addresses and ports are.
  pub eq_iff :
      ((x : ℕ) → Plain (text.inet_ntop x))
      → ((x y : ℕ) → text.inet_ntop x ≡ text.inet_ntop y → x ≡ y)
      → (a b : InetAddress)
      → (eq text a b ≡ true) ↔ ((a.addr.s_addr ≡ b.addr.s_addr) × (to_port a ≡ to_port b))
  unfolding to_ip_port to_port
  eq_iff plain inj a b = (
    λ h.
        let (p, q) =
          split_at_colon (text.inet_ntop a.addr.s_addr) (text.inet_ntop b.addr.s_addr)
            (to_string (swap16 a.addr.sin_port)) (to_string (swap16 b.addr.sin_port))
            (plain a.addr.s_addr) (plain b.addr.s_addr) (address_eq_sound a b h) in
        (inj _ _ p, to_string-injective _ _ q),
    λ e. address_eq_complete a b (ap₂ (λ x y. text.inet_ntop x ++ (b':' ∷ to_string y)) e.0 e.1),
  )

  -- An address made of a text and a 16-bit port has that port, in host order, and prints as that text
  -- if the library prints what it parsed.
  pub new_lem :
      (ip : List ℕ) (port : ℕ)
      → port < 2 ^ 16
      → text.inet_ntop (text.inet_addr ip) ≡ ip
      → (to_port (new text ip port) ≡ port)
        × (to_ip text (new text ip port) ≡ ip)
        × (to_ip_port text (new text ip port) ≡ ip ++ (b':' ∷ to_string port))
  unfolding new to_port to_ip to_ip_port
  new_lem ip port h k =
      let e : swap16 (swap16 port) ≡ port = omega arith in
      (e, k, ap₂ (λ x y. x ++ (b':' ∷ to_string y)) k e)
