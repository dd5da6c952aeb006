-- ===== src/Net/TimerQueue/Ownership.antt =====
-- net/timer_queue.cpp: timers made, restarted and deleted while they are out of the two sets.
use my_net_core_proxy.Prelude.{
  ℕ, ◌≡◌, sym, ◌∙◌, inl, inr, true, false, ◌==◌, Bool-cases, Option, none, some, List, ◌∷◌, arith,
}
use my_net_core_proxy.Prelude.Pairs.{pair_key}
use my_net_core_proxy.Prelude.Sets.{contains}
use my_net_core_proxy.Net.Timer.{Timer}
use my_net_core_proxy.Net.TimerQueue.{TimerQueue, Entry, set_heap}
use my_net_core_proxy.Net.TimerQueue.Invariant.{pointer_in, Held, Inv, Held-absent, Held-inactive}

module _ {F : Type 0} where
  -- The queue with another entry at one address of the heap.
  unfoldable pub touched : TimerQueue F → ℕ → Option (Timer F) → TimerQueue F
  unfolding set_heap
  touched q p entry = record q { heap = set_heap q.heap p entry }

  abbrev pub Absent : TimerQueue F → ℕ → Type 0
  Absent q p =
      ((e : ℕ) → contains q.timers (e, p) ≡ false)
      × ((s : ℕ) → contains q.active_timers (p, s) ≡ false)

  pub Held-Absent :
      (q : TimerQueue F) (out : List Entry) (p : ℕ) → Inv q out → Held q p → Absent q p
  Held-Absent q out p v h = (λ e. Held-absent q out e p v h, λ s. Held-inactive q out p s v h)

  pub touched_other :
      (q : TimerQueue F) (p p' : ℕ) (entry : Option (Timer F))
      → (p == p') ≡ false
      → (touched q p entry).heap p' ≡ q.heap p'
  unfolding touched
  touched_other q p p' entry h = ground arith

  pub touched_self :
      (q : TimerQueue F) (p : ℕ) (entry : Option (Timer F)) → (touched q p entry).heap p ≡ entry
  unfolding touched
  touched_self q p entry = ground arith

  pub touched-linked :
      (q : TimerQueue F) (out : List Entry) (p : ℕ) (entry : Option (Timer F))
      → Inv q out
      → Absent q p
      → (e p' : ℕ) → contains q.timers (e, p') ≡ true
      → (t : Timer F) × ((touched q p entry).heap p' ≡ some t)
        × (t.expiration ≡ e)
        × (contains q.active_timers (p', t.sequence) ≡ true)
  touched-linked q out p entry v a e p' h =
      let (t, at, same, there) = v.linked e p' h in
      let other : (p == p') ≡ false = ground (arith, a.0 e, h) in
      (t, touched_other q p p' entry other ∙ at, same, there)

  pub touched-owned :
      (q : TimerQueue F) (out : List Entry) (p : ℕ) (entry : Option (Timer F))
      → Inv q out
      → Absent q p
      → (p' s : ℕ) → contains q.active_timers (p', s) ≡ true
      → (t : Timer F) × ((touched q p entry).heap p' ≡ some t)
        × (t.sequence ≡ s)
        × (contains q.timers (t.expiration, p') ≡ true)
  touched-owned q out p entry v a p' s h =
      let (t, at, same, there) = v.owned p' s h in
      let other : (p == p') ≡ false = ground (arith, a.1 s, h) in
      (t, touched_other q p p' entry other ∙ at, same, there)

  -- Where nothing lives, nothing waits.
  pub none-Absent :
      (q : TimerQueue F) (out : List Entry) (p : ℕ) → Inv q out → q.heap p ≡ none → Absent q p
  none-Absent q out p v h = (
    λ e. elim (Bool-cases (contains q.timers (e, p))) [
      | inl c ↦ let (t, at, _, _) = v.linked e p c in ground (arith, h, at)
      | inr c ↦ c
    ],
    λ s. elim (Bool-cases (contains q.active_timers (p, s))) [
      | inl c ↦ let (t, at, _, _) = v.owned p s c in ground (arith, h, at)
      | inr c ↦ c
    ],
  )

  -- A new timer is out at first.
  pub made-Inv :
      (q : TimerQueue F) (out : List Entry) (e p : ℕ) (t : Timer F)
      → Inv q out
      → q.heap p ≡ none
      → Inv (touched q p (some t)) ((e, p) ∷ out)
  unfolding touched pointer_in
  made-Inv q out e p t v free =
      let a : Absent q p = none-Absent q out p v free in
      record {
        timers_ordered = v.timers_ordered;
        active_ordered = v.active_ordered;
        linked = touched-linked q out p (some t) v a;
        owned = touched-owned q out p (some t) v a;
        held = λ p' h. elim (Bool-cases (p == p')) [
          | inl here ↦
              let here' : p ≡ p' = ground arith in
              (t, rw (sym here') (touched_self q p (some t)), rw (sym here') (a.1 t.sequence))
          | inr other ↦
              let (t', at, away) = v.held p' (ground (arith, h, other)) in
              (t', touched_other q p p' (some t) other ∙ at, away)
        ];
        distinct = (
          elim (Bool-cases (pointer_in p out)) [
            | inl c ↦ let (t', at, _) = v.held p c in ground (arith, free, at)
            | inr c ↦ c
          ],
          v.distinct,
        );
        live = λ p' t' h. elim (Bool-cases (p == p')) [
          | inl here ↦ inr (ground arith)
          | inr other ↦ elim (v.live p' t' (sym (touched_other q p p' (some t) other) ∙ h)) [
            | inl there ↦ inl there
            | inr among ↦ inr (ground (arith, among))
          ]
        ];
      }

  -- A timer that is out may be given another expiration.
  pub restarted-Inv :
      (q : TimerQueue F) (out : List Entry) (p : ℕ) (t t' : Timer F)
      → Inv q out
      → pointer_in p out ≡ true
      → q.heap p ≡ some t
      → t'.sequence ≡ t.sequence
      → Inv (touched q p (some t')) out
  unfolding touched
  restarted-Inv q out p t t' v among at same =
      let a : Absent q p = Held-Absent q out p v (v.held p among) in
      record {
        timers_ordered = v.timers_ordered;
        active_ordered = v.active_ordered;
        linked = touched-linked q out p (some t') v a;
        owned = touched-owned q out p (some t') v a;
        held = λ r h. elim (Bool-cases (p == r)) [
          | inl here ↦
              let here' : p ≡ r = ground arith in
              (t', rw (sym here') (touched_self q p (some t')), rw (sym here') (a.1 t'.sequence))
          | inr other ↦
              let (u, at', away) = v.held r h in
              (u, touched_other q p r (some t') other ∙ at', away)
        ];
        distinct = v.distinct;
        live = λ r u h. elim (Bool-cases (p == r)) [
          | inl here ↦ let here' : p ≡ r = ground arith in inr (rw (sym here') among)
          | inr other ↦ v.live r u (sym (touched_other q p r (some t') other) ∙ h)
        ];
      }

  -- A timer that is out may be deleted.
  pub deleted-Inv :
      (q : TimerQueue F) (out : List Entry) (e p : ℕ)
      → Inv q ((e, p) ∷ out)
      → Inv (touched q p none) out
  unfolding touched pointer_in
  deleted-Inv q out e p v =
      let a : Absent q p = Held-Absent q ((e, p) ∷ out) p v (v.held p (ground arith)) in
      record {
        timers_ordered = v.timers_ordered;
        active_ordered = v.active_ordered;
        linked = touched-linked q ((e, p) ∷ out) p none v a;
        owned = touched-owned q ((e, p) ∷ out) p none v a;
        held = λ r h.
            let other : (p == r) ≡ false = ground (arith, v.distinct.0, h) in
            let (u, at', away) = v.held r (ground (arith, h)) in
            (u, touched_other q p r none other ∙ at', away);
        distinct = v.distinct.1;
        live = λ r u h. elim (Bool-cases (p == r)) [
          | inl here ↦
              let here' : p ≡ r = ground arith in ground (arith, h, touched_self q p none, here')
          | inr other ↦ elim (v.live r u (sym (touched_other q p r none other) ∙ h)) [
            | inl there ↦ inl there
            | inr among ↦ inr (ground (arith, among, other))
          ]
        ];
      }
