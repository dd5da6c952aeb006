-- ===== src/Net/TimerQueue/Cancel.antt =====
-- net/timer_queue.cpp: a timer that waits is taken out of the two sets, and cancelling.
use my_net_core_proxy.Prelude.{
  ℕ, ◌≡◌, refl, sym, ◌∙◌, ◌⊎◌, inl, inr, true, false, ◌==◌, if◌then◌else◌, Bool-cases, none, some,
  List, ◌∷◌, ok, arith,
}
use my_net_core_proxy.Prelude.Pairs.{pair_key, pair_eq}
use my_net_core_proxy.Prelude.Sets.{set_insert, set_erase, contains}
use my_net_core_proxy.Prelude.Sets.Order.{set_erase-Ascending, contains-set_erase}
use my_net_core_proxy.Prelude.Sets.Pairs.{
  contains-set_insert_self, contains-set_erase_cases, contains-set_erase_other,
  contains-set_erase_absent, contains-set_erase_self, absent_anyway,
}
use my_net_core_proxy.Net.Timer.{Timer, TimerId}
use my_net_core_proxy.Net.TimerQueue.{TimerQueue, Entry, delete, cancel_in_loop}
use my_net_core_proxy.Net.TimerQueue.Invariant.{pointer_in, Inv, Held-inactive, load_lem}
use my_net_core_proxy.Net.TimerQueue.Ownership.{touched, touched_self, touched_other, deleted-Inv}
use my_net_core_proxy.Net.TimerQueue.Steps.{unaffected}

module _ {F : Type 0} where
  -- The queue without a timer that waits.
  unfoldable pub taken : TimerQueue F → ℕ → Timer F → TimerQueue F
  taken q p t = record q {
    timers = set_erase (t.expiration, p) q.timers;
    active_timers = set_erase (p, t.sequence) q.active_timers;
  }

  pub taken-Inv :
      (q : TimerQueue F) (out : List Entry) (p : ℕ) (t : Timer F)
      → Inv q out
      → q.heap p ≡ some t
      → contains q.active_timers (p, t.sequence) ≡ true
      → Inv (taken q p t) ((t.expiration, p) ∷ out)
  unfolding taken pointer_in
  taken-Inv q out p t v at waits = record {
    timers_ordered = set_erase-Ascending (t.expiration, p) q.timers v.timers_ordered;
    active_ordered = set_erase-Ascending (p, t.sequence) q.active_timers v.active_ordered;
    linked = λ e r h.
        let (ne, old) = contains-set_erase_cases t.expiration p e r q.timers v.timers_ordered h in
        let (u, at', same, there) = v.linked e r old in
        let other : (p == r) ≡ false = apart e r u ne at' same in
        (
          u,
          at',
          same,
          contains-set_erase_other p t.sequence r u.sequence q.active_timers v.active_ordered
              (ground (arith, other)) there,
        );
    owned = λ r s h.
        let (ne, old) =
          contains-set_erase_cases p t.sequence r s q.active_timers v.active_ordered h in
        let (u, at', same, there) = v.owned r s old in
        let other : (p == r) ≡ false = apart_active r s u ne at' same in
        (
          u,
          at',
          same,
          contains-set_erase_other t.expiration p u.expiration r q.timers v.timers_ordered
              (ground (arith, other)) there,
        );
    held = λ r h. elim (Bool-cases (p == r)) [
      | inl here ↦
          let here' : p ≡ r = ground arith in
          (
            t,
            rw (sym here') at,
            rw (sym here') (contains-set_erase_self p t.sequence q.active_timers v.active_ordered),
          )
      | inr other ↦
          let (u, at', away) = v.held r (ground (arith, h, other)) in
          (
            u,
            at',
            contains-set_erase_absent p t.sequence r u.sequence q.active_timers v.active_ordered
                away,
          )
    ];
    distinct = (
      elim (Bool-cases (pointer_in p out)) [
        | inl c ↦ ground (arith, Held-inactive q out p t.sequence v (v.held p c), waits)
        | inr c ↦ c
      ],
      v.distinct,
    );
    live = λ r u h. elim (Bool-cases (p == r)) [
      | inl here ↦ inr (ground arith)
      | inr other ↦ elim (v.live r u h) [
        | inl there ↦ inl (
            contains-set_erase_other p t.sequence r u.sequence q.active_timers v.active_ordered
              (ground (arith, other)) there)
        | inr among ↦ inr (ground (arith, among))
      ]
    ];
  }
    where
      apart :
          (e r : ℕ) (u : Timer F)
          → pair_eq (t.expiration, p) (e, r) ≡ false
          → q.heap r ≡ some u
          → u.expiration ≡ e
          → (p == r) ≡ false
      apart e r u ne at' same = ground (arith, at, at', ne)

      apart_active :
          (r s : ℕ) (u : Timer F)
          → pair_eq (p, t.sequence) (r, s) ≡ false
          → q.heap r ≡ some u
          → u.sequence ≡ s
          → (p == r) ≡ false
      apart_active r s u ne at' same = ground (arith, at, at', ne)

  -- On a queue that satisfies the invariant, cancelInLoop with any id, stale ones included, uses
  -- no timer that does not live and keeps the invariant; the id, and no other one, stops waiting,
  -- and no address is taken. An id that did not wait leaves the timers, and is noted for reset
  -- while timers are being run.
  pub cancel_in_loop-Inv :
      (q : TimerQueue F) (out : List Entry) (id : TimerId)
      → Inv q out
      → (q' : TimerQueue F) × (cancel_in_loop id q ≡ ok q')
        × Inv q' out
        × ((r s : ℕ)
            → contains q'.active_timers (r, s) ≡ (
                if pair_eq (id.timer, id.sequence) (r, s)
                then false
                else contains q.active_timers (r, s)))
        × ((p : ℕ) → q.heap p ≡ none → q'.heap p ≡ none)
        × ((contains q.active_timers (id.timer, id.sequence) ≡ true)
            ⊎ ((q'.timers ≡ q.timers)
                × ((q.calling_expired_timers ≡ false)
                    ⊎ (contains q'.canceling_timers (id.timer, id.sequence) ≡ true))))
  unfolding cancel_in_loop delete touched taken
  cancel_in_loop-Inv q out id v =
      elim (Bool-cases (contains q.active_timers (id.timer, id.sequence))) [
        | inl waits ↦
            let (t, at, same, _) = v.owned id.timer id.sequence waits in
            let waits' : contains q.active_timers (id.timer, t.sequence) ≡ true = rw same waits in
            let v' : Inv (touched (taken q id.timer t) id.timer none) out =
              deleted-Inv (taken q id.timer t) out t.expiration id.timer
                (taken-Inv q out id.timer t v at waits') in
            (
              touched (taken q id.timer t) id.timer none,
              ground (arith, waits, load_lem q id.timer t at, same),
              v',
              λ r s. rw same (
                  contains-set_erase (id.timer, id.sequence) (r, s) q.active_timers
                    v.active_ordered),
              λ p free. elim (Bool-cases (id.timer == p)) [
                | inl here ↦
                    let here' : id.timer ≡ p = ground arith in
                    rw (sym here') (touched_self (taken q id.timer t) id.timer none)
                | inr other ↦ touched_other (taken q id.timer t) id.timer p none other ∙ free
              ],
              inl waits,
            )
        | inr stale ↦ elim (Bool-cases q.calling_expired_timers) [
          | inl running ↦ (
            record q { canceling_timers = set_insert (id.timer, id.sequence) q.canceling_timers },
            ground (arith, stale, running),
            unaffected q out q.calling_expired_timers
                (set_insert (id.timer, id.sequence) q.canceling_timers) q.num_created q.alarm v,
            absent_anyway id.timer id.sequence q.active_timers stale,
            λ p free. free,
            inr (refl, inr (contains-set_insert_self id.timer id.sequence q.canceling_timers)),
          )
          | inr idle ↦ (
            q,
            ground (arith, stale, idle),
            v,
            absent_anyway id.timer id.sequence q.active_timers stale,
            λ p free. free,
            inr (refl, inl idle),
          )
        ]
      ]
