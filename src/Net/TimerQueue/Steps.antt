-- ===== src/Net/TimerQueue/Steps.antt =====
-- net/timer_queue.cpp: adding a timer uses no timer that does not live, and keeps the queue
-- and its heap in agreement.
use my_net_core_proxy.Prelude.{
  ℕ, ◌+◌, ◌≡◌, refl, ap, ◌∙◌, inl, inr, Bool, false, Bool-cases, Option, none, some, List, ◌∷◌, ok,
  arith,
}
use my_net_core_proxy.Prelude.Pairs.{pair_key}
use my_net_core_proxy.Prelude.Sets.{set_insert, contains}
use my_net_core_proxy.Prelude.Sets.Pairs.{contains-set_insert_self}
use my_net_core_proxy.Net.Timer
use my_net_core_proxy.Net.Timer.{Timer, TimerId}
use my_net_core_proxy.Net.Timestamp.{Seconds}
use my_net_core_proxy.Net.TimerQueue.{
  TimerQueue, Entry, ActiveTimer, insert, add_timer_in_loop, new_timer, timer_id, load, add_timer,
  reset_timerfd, earliest_changed, how_much_time_from_now, Timespec,
}
use my_net_core_proxy.Net.TimerQueue.Invariant.{Inv, load_lem, inserted, inserted-Inv}
use my_net_core_proxy.Net.TimerQueue.Ownership.{touched, touched_self, made-Inv, none-Absent}

module _ {F : Type 0} where
  -- The other fields of the queue are not read.
  pub unaffected :
      (q : TimerQueue F) (out : List Entry) (calling : Bool) (canceling : List ActiveTimer) (n : ℕ)
      (a : Option Timespec)
      → Inv q out
      → Inv
          (record q {
            calling_expired_timers = calling;
            canceling_timers = canceling;
            num_created = n;
            alarm = a;
          })
          out
  unaffected q out calling canceling n a v = record {
    timers_ordered = v.timers_ordered;
    active_ordered = v.active_ordered;
    linked = v.linked;
    owned = v.owned;
    held = v.held;
    distinct = v.distinct;
    live = v.live;
  }

  pub insert_lem :
      (q : TimerQueue F) (p : ℕ) (t : Timer F)
      → q.heap p ≡ some t
      → insert q p ≡ ok (earliest_changed q.timers t.expiration, inserted q p t)
  unfolding insert inserted
  insert_lem q p t at = ground (arith, load_lem q p t at)

  -- A timer that is out joins those that wait, and the descriptor is set if it is the first.
  pub add_timer_in_loop-Inv :
      (q : TimerQueue F) (out : List Entry) (e p clock : ℕ) (t : Timer F)
      → Inv q ((e, p) ∷ out)
      → q.heap p ≡ some t
      → (q' : TimerQueue F) × (add_timer_in_loop clock p q ≡ ok q')
        × Inv q' out
        × (q'.active_timers ≡ set_insert (p, t.sequence) q.active_timers)
  unfolding add_timer_in_loop reset_timerfd inserted
  add_timer_in_loop-Inv q out e p clock t v at =
      let v' : Inv (inserted q p t) out = inserted-Inv q out e p t v at in
      elim (Bool-cases (earliest_changed q.timers t.expiration)) [
        | inl first ↦ (
          reset_timerfd (inserted q p t) t.expiration clock,
          ground (arith, insert_lem q p t at, first, load_lem (inserted q p t) p t at),
          unaffected (inserted q p t) out q.calling_expired_timers q.canceling_timers q.num_created
              (some (how_much_time_from_now t.expiration clock)) v',
          refl,
        )
        | inr later ↦ (inserted q p t, ground (arith, insert_lem q p t at, later), v', refl)
      ]

  -- A timer made at a free address waits, with every other timer as before.
  pub add_timer-Inv :
      (q : TimerQueue F) (out : List Entry) (clock p : ℕ) (cb : F) (when : ℕ) (interval : Seconds)
      → Inv q out
      → q.heap p ≡ none
      → (id : TimerId) × (q' : TimerQueue F) × (add_timer clock p cb when interval q ≡ ok (id, q'))
        × Inv q' out
        × (q'.active_timers ≡ set_insert (id.timer, id.sequence) q.active_timers)
        × (contains q.active_timers (id.timer, id.sequence) ≡ false)
  unfolding add_timer new_timer timer_id load touched
  add_timer-Inv q out clock p cb when interval v free =
      let t : Timer F = Timer.new q.num_created cb when interval in
      let q1 : TimerQueue F = record (touched q p (some t)) { num_created = q.num_created + 1 } in
      let v1 : Inv q1 ((when, p) ∷ out) =
        unaffected (touched q p (some t)) ((when, p) ∷ out) q.calling_expired_timers
          q.canceling_timers (q.num_created + 1) q.alarm (made-Inv q out when p t v free) in
      let (q', added, v', active) =
        add_timer_in_loop-Inv q1 out when p clock t v1 (touched_self q p (some t)) in
      let (_, there, same, _) = v'.owned p q.num_created (
        ap (λ l. contains l (p, q.num_created)) active
        ∙ contains-set_insert_self p q.num_created q1.active_timers) in
      (
        record { timer = p; sequence = q.num_created },
        q',
        ground (arith, added, there, same),
        v',
        active,
        (none-Absent q out p v free).1 q.num_created,
      )
