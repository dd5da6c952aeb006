-- ===== src/Net/EventLoop/Timing.antt =====
-- net/event_loop.cpp: runAt, runAfter, runEvery and cancel, in the thread of the loop and outside its
-- queue of tasks, and what they promise to the classes that use them.
use my_net_core_proxy.Prelude.{
  ℕ, ◌+◌, ◌^◌, ◌≡◌, ◌∙◌, ap, ◌⊎◌, inl, inr, Bool, true, false, Bool-cases, ltb, if◌then◌else◌, none,
  [], Result, ok, fault, overflow, ◌>>=◌, arith,
}
use my_net_core_proxy.Prelude.Pairs.{pair_key, pair_eq}
use my_net_core_proxy.Prelude.Sets.{contains}
use my_net_core_proxy.Prelude.Sets.Order.{contains-set_insert}
use my_net_core_proxy.Net.Timer.{TimerId}
use my_net_core_proxy.Net.Timestamp.{Seconds, add_time}
use my_net_core_proxy.Net.TimerQueue.{TimerQueue, add_timer, cancel_in_loop}
use my_net_core_proxy.Net.TimerQueue.Invariant.{Inv}
use my_net_core_proxy.Net.TimerQueue.Steps.{add_timer-Inv}
use my_net_core_proxy.Net.TimerQueue.Cancel.{cancel_in_loop-Inv}

-- The clock at the call and at the setting of the descriptor, and the address that `new` gives.
pub record Moment : Type 0 where
  pub now : ℕ
  pub clock : ℕ
  pub address : ℕ

-- The interval `0.0`.
abbrev pub once : Seconds
once = record { is_positive = false; micro_seconds = 0 }

module _ {F : Type 0} where
  unfoldable pub run_at : Moment → ℕ → F → TimerQueue F → Result (TimerId × TimerQueue F)
  run_at m time cb q = add_timer m.clock m.address cb time once q

  unfoldable pub run_after : Moment → Seconds → F → TimerQueue F → Result (TimerId × TimerQueue F)
  unfolding run_at
  run_after m delay cb q = do time ← add_time m.now delay; run_at m time cb q

  unfoldable pub run_every : Moment → Seconds → F → TimerQueue F → Result (TimerId × TimerQueue F)
  run_every m interval cb q = do
    time ← add_time m.now interval
    add_timer m.clock m.address cb time interval q

  unfoldable pub cancel : TimerId → TimerQueue F → Result (TimerQueue F)
  cancel id q = cancel_in_loop id q

abbrev pub same_id : TimerId → TimerId → Bool
same_id a b = pair_eq (a.timer, a.sequence) (b.timer, b.sequence)

-- Timers as a class that keeps some sees them: `Waits q id` says whether a timer waits.
pub record Timers (F : Type 0) : Type 1 where
  pub Queue : Type 0
  pub IsValid : Queue → Type 0
  pub IsFree : Queue → ℕ → Type 0
  pub waits : Queue → TimerId → Bool
  pub after : Moment → Seconds → F → Queue → Result (TimerId × Queue)
  pub stop : TimerId → Queue → Result Queue
  pub after_lem :
      (m : Moment) (delay : Seconds) (f : F) (q : Queue)
      → IsValid q
      → IsFree q m.address
      → ((id : TimerId) × (q' : Queue) × (after m delay f q ≡ ok (id, q'))
          × IsValid q'
          × (waits q id ≡ false)
          × ((other : TimerId)
              → waits q' other ≡ (if same_id id other then true else waits q other)))
        ⊎ (after m delay f q ≡ fault overflow)
  pub stop_lem :
      (id : TimerId) (q : Queue)
      → IsValid q
      → (q' : Queue) × (stop id q ≡ ok q')
        × IsValid q'
        × ((p : ℕ) → IsFree q p → IsFree q' p)
        × ((other : TimerId) → waits q' other ≡ (if same_id id other then false else waits q other))

module _ {F : Type 0} where
  abbrev pub id_waits : TimerQueue F → TimerId → Bool
  id_waits q id = contains q.active_timers (id.timer, id.sequence)

  pub run_after_lem :
      (m : Moment) (delay : Seconds) (f : F) (q : TimerQueue F)
      → Inv q []
      → q.heap m.address ≡ none
      → ((id : TimerId) × (q' : TimerQueue F) × (run_after m delay f q ≡ ok (id, q'))
          × Inv q' []
          × (id_waits q id ≡ false)
          × ((other : TimerId)
              → id_waits q' other ≡ (if same_id id other then true else id_waits q other)))
        ⊎ (run_after m delay f q ≡ fault overflow)
  unfolding run_after run_at add_time
  run_after_lem m delay f q v free =
      elim (Bool-cases (ltb (m.now + delay.micro_seconds) (2 ^ 63))) [
        | inr late ↦ inr (ground (arith, late))
        | inl soon ↦
            let (id, q', e, v', active, fresh) =
              add_timer-Inv q [] m.clock m.address f (m.now + delay.micro_seconds) once v free in
            inl (
              id,
              q',
              ground (arith, soon, e),
              v',
              fresh,
              λ other.
                  ap (λ l. contains l (other.timer, other.sequence)) active
                  ∙ contains-set_insert (id.timer, id.sequence) (other.timer, other.sequence)
                      q.active_timers,
            )
      ]

  pub cancel_lem :
      (id : TimerId) (q : TimerQueue F)
      → Inv q []
      → (q' : TimerQueue F) × (cancel id q ≡ ok q')
        × Inv q' []
        × ((p : ℕ) → q.heap p ≡ none → q'.heap p ≡ none)
        × ((other : TimerId)
            → id_waits q' other ≡ (if same_id id other then false else id_waits q other))
  unfolding cancel
  cancel_lem id q v =
      let (q', e, v', others, free, _) = cancel_in_loop-Inv q [] id v in
      (q', e, v', free, λ other. others other.timer other.sequence)

-- The timer queue keeps the promises.
abbrev pub queue_timers : (F : Type 0) → Timers F
queue_timers F = record {
  Queue = TimerQueue F;
  IsValid = λ q. Inv q [];
  IsFree = λ q p. q.heap p ≡ none;
  waits = id_waits;
  after = run_after;
  stop = cancel;
  after_lem = run_after_lem;
  stop_lem = cancel_lem;
}
