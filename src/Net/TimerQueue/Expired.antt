-- ===== src/Net/TimerQueue/Expired.antt =====
-- net/timer_queue.cpp: which timers getExpired takes out.
use my_net_core_proxy.Prelude.{
  ℕ, ◌≡◌, refl, sym, ◌∙◌, ap, subst, inl, inr, false, ◌||◌, Bool-cases, List, [], ◌∷◌, ◌++◌,
  append-nil, append_assoc, ◌≤◌, ◌<◌, ok, arith,
}
use my_net_core_proxy.Prelude.Pairs.{pair_key, pair_lt}
use my_net_core_proxy.Prelude.Sets.{set_erase, contains, before, from}
use my_net_core_proxy.Prelude.Sets.Order.{Above, Ascending}
use my_net_core_proxy.Net.TimerQueue.{TimerQueue, Entry, ActiveTimer}
use my_net_core_proxy.Net.TimerQueue.{deactivate, get_expired, max_pointer}
use my_net_core_proxy.Net.TimerQueue.Invariant.{pointer_in, Distinct, Inv, load_lem}
use my_net_core_proxy.Net.TimerQueue.Cancel.{taken, taken-Inv}

pointer_in-snoc :
    (r e p : ℕ) (out : List Entry) → pointer_in r (out ++ (e, p) ∷ []) ≡ pointer_in r ((e, p) ∷ out)
unfolding pointer_in
pointer_in-snoc r e p [] = refl
pointer_in-snoc r e p ((e', p') ∷ out) = ground (arith, pointer_in-snoc r e p out)

Distinct-snoc :
    (e p : ℕ) (out : List Entry)
    → pointer_in p out ≡ false
    → Distinct out
    → Distinct (out ++ (e, p) ∷ [])
unfolding pointer_in
Distinct-snoc e p [] h d = (refl, tt)
Distinct-snoc e p ((e', p') ∷ out) h d =
    (ground (arith, pointer_in-snoc p' e p out, d.0), Distinct-snoc e p out (ground (arith, h)) d.1)

-- The set falls apart at a lower bound, in order.
before-append-from : (s : Entry) (xs : List Entry) → before s xs ++ from s xs ≡ xs
unfolding before from
before-append-from s [] = refl
before-append-from s (x ∷ xs) = ground (arith, before-append-from s xs)

abbrev pub AllBy : ℕ → List Entry → Type 0
AllBy now [] = Unit {0}
AllBy now ((e, p) ∷ xs) = (e ≤ now) × AllBy now xs

abbrev pub AllAfter : ℕ → List Entry → Type 0
AllAfter now [] = Unit {0}
AllAfter now ((e, p) ∷ xs) = (now < e) × AllAfter now xs

-- No object lives at the last address.
abbrev pub Addresses : List Entry → Type 0
Addresses [] = Unit {0}
Addresses ((e, p) ∷ xs) = (p < max_pointer) × Addresses xs

before-AllBy : (now : ℕ) (xs : List Entry) → AllBy now (before (now, max_pointer) xs)
unfolding before
before-AllBy now [] = tt
before-AllBy now ((e, p) ∷ xs) = ground (arith, before-AllBy now xs)

Above-AllAfter : (now e p : ℕ) (xs : List Entry) → now < e → Above (e, p) xs → AllAfter now xs
Above-AllAfter now e p [] h a = tt
Above-AllAfter now e p ((e', p') ∷ xs) h a = (ground (arith, a.0), Above-AllAfter now e p xs h a.1)

from-AllAfter :
    (now : ℕ) (xs : List Entry)
    → Ascending xs
    → Addresses xs
    → AllAfter now (from (now, max_pointer) xs)
unfolding from
from-AllAfter now [] v a = tt
from-AllAfter now ((e, p) ∷ xs) v a =
    ground (arith, from-AllAfter now xs v.1 a.1, Above-AllAfter now e p xs, a.0, v.0)

pub pointer_in-append :
    (p : ℕ) (xs ys : List Entry) → pointer_in p (xs ++ ys) ≡ (pointer_in p xs || pointer_in p ys)
unfolding pointer_in
pointer_in-append p [] ys = refl
pointer_in-append p ((e, r) ∷ xs) ys = ground (arith, pointer_in-append p xs ys)

first_erased : (x : Entry) (xs : List Entry) → set_erase x (x ∷ xs) ≡ xs
unfolding set_erase
first_erased (e, p) xs = ground arith

module _ {F : Type 0} where
  -- The timers that are out may be listed in another order.
  pub reordered :
      (q : TimerQueue F) (out : List Entry) (e p : ℕ)
      → Inv q ((e, p) ∷ out)
      → Inv q (out ++ (e, p) ∷ [])
  reordered q out e p v = record {
    timers_ordered = v.timers_ordered;
    active_ordered = v.active_ordered;
    linked = v.linked;
    owned = v.owned;
    held = λ r h. v.held r (sym (pointer_in-snoc r e p out) ∙ h);
    distinct = Distinct-snoc e p out v.distinct.0 v.distinct.1;
    live = λ r t h. elim (v.live r t h) [
      | inl there ↦ inl there
      | inr among ↦ inr (pointer_in-snoc r e p out ∙ among)
    ];
  }

  deactivate_lem :
      (s : Entry) (xs : List Entry) (q : TimerQueue F) (out : List Entry)
      → Inv (record q { timers = xs }) out
      → (active : List ActiveTimer) × (deactivate (before s xs) (record q { timers = from s xs })
          ≡ ok (record q { timers = from s xs; active_timers = active }))
        × Inv (record q { timers = from s xs; active_timers = active }) (out ++ before s xs)
  unfolding deactivate before from contains taken
  deactivate_lem s [] q out v = (q.active_timers, refl, rw append-nil v)
  deactivate_lem s ((e, p) ∷ xs) q out v = elim (Bool-cases (pair_lt (e, p) s)) [
    | inr late ↦ (q.active_timers, ground (arith, late), rw (late, append-nil) v)
    | inl early ↦
        let (t, at, same, waits) = v.linked e p (ground arith) in
        let q0 : TimerQueue F = record q { timers = (e, p) ∷ xs } in
        let q1 : TimerQueue F = record q {
          active_timers = set_erase (p, t.sequence) q.active_timers;
        } in
        let v1 : Inv (record q1 { timers = xs }) ((e, p) ∷ out) =
          subst (λ l. Inv (record q1 { timers = l }) ((e, p) ∷ out))
            (ap (λ k. set_erase (k, p) ((e, p) ∷ xs)) same ∙ first_erased (e, p) xs)
            (subst (λ k. Inv (taken q0 p t) ((k, p) ∷ out)) same
              (taken-Inv q0 out p t v at waits)) in
        let (active, done, v2) =
          deactivate_lem s xs q1 (out ++ (e, p) ∷ [])
            (reordered (record q1 { timers = xs }) out e p v1) in
        (
          active,
          ground (arith, early, load_lem (record q { timers = from s xs }) p t at, done),
          rw early (
              subst (λ l. Inv (record q { timers = from s xs; active_timers = active }) l)
                (append_assoc out ((e, p) ∷ []) (before s xs)) v2),
        )
  ]

  pub swapped : (q : TimerQueue F) (out es : List Entry) → Inv q (out ++ es) → Inv q (es ++ out)
  swapped q [] es v = rw append-nil v
  swapped q ((e, p) ∷ out) es v = subst (Inv q) (append_assoc es ((e, p) ∷ []) out) (
      swapped q out (es ++ (e, p) ∷ [])
        (subst (Inv q) (append_assoc out es ((e, p) ∷ [])) (reordered q (out ++ es) e p v)))

  -- getExpired uses no timer that does not live.
  pub get_expired-Inv :
      (now : ℕ) (q : TimerQueue F) (out : List Entry)
      → Inv q out
      → (expired : List Entry) × (q' : TimerQueue F) × (get_expired now q ≡ ok (expired, q'))
        × (expired ≡ before (now, max_pointer) q.timers)
        × (q'.timers ≡ from (now, max_pointer) q.timers)
        × Inv q' (out ++ expired)
  unfolding get_expired
  get_expired-Inv now q out v =
      let s : Entry = (now, max_pointer) in
      let (active, done, v') = deactivate_lem s q.timers q out v in
      (
        before s q.timers,
        record q { timers = from s q.timers; active_timers = active },
        ground (arith, done),
        refl,
        refl,
        v',
      )

  -- On a queue that satisfies the invariant, with timers below the last address, getExpired
  -- succeeds and splits the timers, in their order, into those that expire by now, which it
  -- returns, and those that expire later, which stay.
  pub get_expired_lem :
      (now : ℕ) (q : TimerQueue F)
      → Inv q []
      → Addresses q.timers
      → (expired : List Entry) × (q' : TimerQueue F) × (get_expired now q ≡ ok (expired, q'))
        × (expired ++ q'.timers ≡ q.timers)
        × AllBy now expired
        × AllAfter now q'.timers
  get_expired_lem now q v a =
      let s : Entry = (now, max_pointer) in
      let (expired, q', done, out, left, _) = get_expired-Inv now q [] v in
      (
        expired,
        q',
        done,
        rw (out, left) (before-append-from s q.timers),
        rw out (before-AllBy now q.timers),
        rw left (from-AllAfter now q.timers v.timers_ordered a),
      )
