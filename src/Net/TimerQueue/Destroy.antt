-- ===== src/Net/TimerQueue/Destroy.antt =====
-- net/timer_queue.cpp: what the destructor leaves of the heap.
use my_net_core_proxy.Prelude.{
  ℕ, ◌≡◌, refl, sym, ◌∙◌, ap, inl, inr, true, ◌==◌, Bool-cases, none, some, Option-cases, List, [],
  ◌∷◌, ok, arith, if◌then◌else◌,
}
use my_net_core_proxy.Prelude.Pairs.{pair_key}
use my_net_core_proxy.Prelude.Sets.{contains}
use my_net_core_proxy.Prelude.Sets.Order.{Ascending, Above, Above-absent}
use my_net_core_proxy.Net.Timer.{Timer}
use my_net_core_proxy.Net.TimerQueue.{TimerQueue, Entry, delete, delete_all, destroy}
use my_net_core_proxy.Net.TimerQueue.Invariant.{pointer_in, Inv, load_lem}
use my_net_core_proxy.Net.TimerQueue.Ownership.{touched, touched_other, touched_self}

contains-pointer_in :
    (e p : ℕ) (xs : List Entry) → contains xs (e, p) ≡ true → pointer_in p xs ≡ true
unfolding pointer_in contains
contains-pointer_in e p [] h = h
contains-pointer_in e p ((e', p') ∷ xs) h = ground (arith, contains-pointer_in e p xs, h)

module _ {F : Type 0} where
  -- Each entry names a timer that lives and expires then.
  abbrev Linked : TimerQueue F → List Entry → Type 0
  Linked q xs =
      (e p : ℕ)
      → contains xs (e, p) ≡ true
      → (t : Timer F) × (q.heap p ≡ some t) × (t.expiration ≡ e)

  rest-Linked :
      (q : TimerQueue F) (e p : ℕ) (xs : List Entry)
      → Linked q ((e, p) ∷ xs)
      → Above (e, p) xs
      → Linked (touched q p none) xs
  unfolding contains
  rest-Linked q e p xs l a e' p' h =
      let (t, at, same) = l e p (ground arith) in
      let (t', at', same') = l e' p' (ground (arith, h)) in
      elim (Bool-cases (p == p')) [
        | inl here ↦ ground (arith, at, at', same, same', here, h, Above-absent (e, p) xs a)
        | inr other ↦ (t', touched_other q p p' none other ∙ at', same')
      ]

  delete_all_lem :
      (xs : List Entry) (q : TimerQueue F)
      → Linked q xs
      → Ascending xs
      → (q' : TimerQueue F) × (delete_all xs q ≡ ok q')
        × ((p : ℕ) → q'.heap p ≡ (if pointer_in p xs then none else q.heap p))
  unfolding delete_all delete pointer_in contains touched
  delete_all_lem [] q l a = (q, refl, λ p. refl)
  delete_all_lem ((e, p) ∷ xs) q l a =
      let (t, at, _) = l e p (ground arith) in
      let (q', done, left) =
        delete_all_lem xs (touched q p none) (rest-Linked q e p xs l a.0) a.1 in
      (
        q',
        ground (arith, load_lem q p t at, done),
        λ r. elim (Bool-cases (p == r)) [
          | inl here ↦
              let here' : p ≡ r = ground arith in
              ground (
                arith,
                left r,
                here,
                ap (touched q p none).heap (sym here') ∙ touched_self q p none,
              )
          | inr other ↦ ground (arith, left r, other, touched_other q p r none other)
        ],
      )

  -- On a queue that satisfies the invariant, with no timer being run, the destructor deletes each
  -- timer once and no timer lives after it.
  pub destroy_lem :
      (q : TimerQueue F)
      → Inv q []
      → (q' : TimerQueue F) × (destroy q ≡ ok q') × ((p : ℕ) → q'.heap p ≡ none)
  unfolding destroy pointer_in
  destroy_lem q v =
      let linked : Linked q q.timers =
        λ e p h. let (t, at, same, _) = v.linked e p h in (t, at, same) in
      let (q', done, left) = delete_all_lem q.timers q linked v.timers_ordered in
      (
        q',
        done,
        λ p. elim (Option-cases (q.heap p)) [
          | inl free ↦ ground (arith, left p, free)
          | inr (t, at) ↦ elim (v.live p t at) [
            | inr out ↦ ground (arith, out)
            | inl waits ↦
                let (t', at', _, there) = v.owned p t.sequence waits in
                ground (arith, left p, contains-pointer_in t'.expiration p q.timers there)
          ]
        ],
      )
