-- ===== src/Net/TimerQueue/Invariant.antt =====
-- net/timer_queue.cpp: the two sets, the heap and the timers that are being run agree.
use my_net_core_proxy.Prelude.{
  ℕ, ◌≡◌, refl, sym, ◌∙◌, ap, ◌⊎◌, inl, inr, Bool, true, false, ◌||◌, ◌==◌, Bool-cases, some, List,
  [], ◌∷◌, ok, arith,
}
use my_net_core_proxy.Prelude.Pairs.{pair_key}
use my_net_core_proxy.Prelude.Sets.{set_insert, contains}
use my_net_core_proxy.Prelude.Sets.Order.{Ascending, set_insert-Ascending, contains-set_insert}
use my_net_core_proxy.Prelude.Sets.Pairs.{
  contains-set_insert_cases, contains-set_insert_self, contains-set_insert_old,
}
use my_net_core_proxy.Net.Timer.{Timer}
use my_net_core_proxy.Net.TimerQueue.{TimerQueue, Entry, empty, load}

-- Whether a timer is among some entries.
unfoldable pub pointer_in : ℕ → List Entry → Bool
pointer_in p [] = false
pointer_in p ((e, r) ∷ out) = r == p || pointer_in p out

abbrev pub Distinct : List Entry → Type 0
Distinct [] = Unit {0}
Distinct ((e, p) ∷ out) = (pointer_in p out ≡ false) × Distinct out

module _ {F : Type 0} where
  -- A timer that lives and does not wait.
  abbrev pub Held : TimerQueue F → ℕ → Type 0
  Held q p =
      (t : Timer F) × (q.heap p ≡ some t) × (contains q.active_timers (p, t.sequence) ≡ false)

  -- The timers that wait are those of both sets, each under its own expiration and sequence; those of
  -- `out` are out to be run, and no other timer lives.
  pub record Inv (q : TimerQueue F) (out : List Entry) : Type 0 where
    pub timers_ordered : Ascending q.timers
    pub active_ordered : Ascending q.active_timers
    pub linked :
        (e p : ℕ)
        → contains q.timers (e, p) ≡ true
        → (t : Timer F) × (q.heap p ≡ some t)
          × (t.expiration ≡ e)
          × (contains q.active_timers (p, t.sequence) ≡ true)
    pub owned :
        (p s : ℕ)
        → contains q.active_timers (p, s) ≡ true
        → (t : Timer F) × (q.heap p ≡ some t)
          × (t.sequence ≡ s)
          × (contains q.timers (t.expiration, p) ≡ true)
    pub held : (p : ℕ) → pointer_in p out ≡ true → Held q p
    pub distinct : Distinct out
    pub live :
        (p : ℕ) (t : Timer F)
        → q.heap p ≡ some t
        → (contains q.active_timers (p, t.sequence) ≡ true) ⊎ (pointer_in p out ≡ true)

  pub empty-Inv : Inv empty []
  unfolding contains pointer_in
  empty-Inv = record {
    timers_ordered = tt;
    active_ordered = tt;
    linked = λ e p h. cc;
    owned = λ p s h. cc;
    held = λ p h. cc;
    distinct = tt;
    live = λ p t h. cc;
  }

  -- A timer that is out is not among those that wait.
  pub Held-absent :
      (q : TimerQueue F) (out : List Entry) (e p : ℕ)
      → Inv q out
      → Held q p
      → contains q.timers (e, p) ≡ false
  Held-absent q out e p v (t, at, away) = elim (Bool-cases (contains q.timers (e, p))) [
    | inl h ↦ let (t', at', same, there) = v.linked e p h in ground (arith, at, at', there, away)
    | inr h ↦ h
  ]

  pub Held-inactive :
      (q : TimerQueue F) (out : List Entry) (p s : ℕ)
      → Inv q out
      → Held q p
      → contains q.active_timers (p, s) ≡ false
  Held-inactive q out p s v (t, at, away) = elim (Bool-cases (contains q.active_timers (p, s))) [
    | inl h ↦ let (t', at', same, there) = v.owned p s h in ground (arith, at, at', same, h, away)
    | inr h ↦ h
  ]

  pub load_lem : (q : TimerQueue F) (p : ℕ) (t : Timer F) → q.heap p ≡ some t → load q p ≡ ok t
  unfolding load
  load_lem q p t h = rw (h, load) refl

  unfoldable pub inserted : TimerQueue F → ℕ → Timer F → TimerQueue F
  inserted q p t = record q {
    timers = set_insert (t.expiration, p) q.timers;
    active_timers = set_insert (p, t.sequence) q.active_timers;
  }

  -- A timer that is out comes back among those that wait.
  pub inserted-Inv :
      (q : TimerQueue F) (out : List Entry) (e p : ℕ) (t : Timer F)
      → Inv q ((e, p) ∷ out)
      → q.heap p ≡ some t
      → Inv (inserted q p t) out
  unfolding inserted pointer_in
  inserted-Inv q out e p t v at = record {
    timers_ordered = set_insert-Ascending (t.expiration, p) q.timers v.timers_ordered;
    active_ordered = set_insert-Ascending (p, t.sequence) q.active_timers v.active_ordered;
    linked = λ e' p' h. elim (contains-set_insert_cases t.expiration p e' p' q.timers h) [
      | inl (same, here) ↦ (
        t,
        ap q.heap (sym here) ∙ at,
        same,
        rw (sym here) (contains-set_insert_self p t.sequence q.active_timers),
      )
      | inr old ↦
          let (t', at', same, there) = v.linked e' p' old in
          (t', at', same, contains-set_insert_old p t.sequence p' t'.sequence q.active_timers there)
    ];
    owned = λ p' s h. elim (contains-set_insert_cases p t.sequence p' s q.active_timers h) [
      | inl (here, same) ↦ (
        t,
        ap q.heap (sym here) ∙ at,
        same,
        rw (sym here) (contains-set_insert_self t.expiration p q.timers),
      )
      | inr old ↦
          let (t', at', same, there) = v.owned p' s old in
          (t', at', same, contains-set_insert_old t.expiration p t'.expiration p' q.timers there)
    ];
    held = λ p' h.
        let (t', at', away) = v.held p' (ground (arith, h)) in
        let other : (p == p') ≡ false = ground (arith, v.distinct.0, h) in
        (
          t',
          at',
          ground (
            arith,
            contains-set_insert (p, t.sequence) (p', t'.sequence) q.active_timers,
            away,
            other,
          ),
        );
    distinct = v.distinct.1;
    live = λ p' t' h. elim (v.live p' t' h) [
      | inl there ↦ inl (contains-set_insert_old p t.sequence p' t'.sequence q.active_timers there)
      | inr out_there ↦ elim (Bool-cases (p == p')) [
        | inl here ↦
            let same : t' ≡ t = ground (arith, at, h, here) in
            let here' : p ≡ p' = ground arith in
            inl (rw (sym here', same) (contains-set_insert_self p t.sequence q.active_timers))
        | inr other ↦ inr (ground (arith, out_there, other))
      ]
    ];
  }
