-- ===== src/Net/TimerQueue.antt =====
-- net/timer_queue.h and net/timer_queue.cpp. A `Timer *` is a number, and `heap` says which timer lives
-- there; a use of one that does not live is a fault. The clock is read where the code reads it.
pub mod Invariant
pub mod Ownership
pub mod Steps
pub mod Posting
pub mod Cancel
pub mod Expired
pub mod Running
pub mod Destroy
pub mod Remaining
mod Tests
use my_net_core_proxy.Prelude.{
  ℕ, ◌+◌, ◌-◌, ◌*◌, ◌/◌, ◌%◌, ◌^◌, Bool, true, false, not, ◌&&◌, ◌==◌, ltb, if◌then◌else◌, Option,
  none, some, List, [], ◌∷◌, Result, ok, fault, dangling, ◌>>=◌, ◌>>◌,
}
use my_net_core_proxy.Prelude.Pairs.{pair_key}
use my_net_core_proxy.Prelude.Sets.{set_insert, set_erase, contains, before, from}
use my_net_core_proxy.Net.Timestamp.{Seconds, valid, micro_seconds_per_second}
use my_net_core_proxy.Net.Timer
use my_net_core_proxy.Net.Timer.{Timer, TimerId, restart}

pub record Timespec : Type 0 where
  pub tv_sec : ℕ
  pub tv_nsec : ℕ

-- `Entry`: an expiration and a timer. `ActiveTimer`: a timer and its sequence.
abbrev pub Entry : Type 0
Entry = ℕ × ℕ

abbrev pub ActiveTimer : Type 0
ActiveTimer = ℕ × ℕ

-- `alarm` is what the timer descriptor was last set to, until it fires; `num_created` is the counter
-- of the class Timer.
pub record TimerQueue (F : Type 0) : Type 0 where
  pub timers : List Entry
  pub active_timers : List ActiveTimer
  pub calling_expired_timers : Bool
  pub canceling_timers : List ActiveTimer
  pub heap : ℕ → Option (Timer F)
  pub num_created : ℕ
  pub alarm : Option Timespec

-- The time from `now` to `when`, a tenth of a millisecond at least. The difference is below 100 where the
-- signed one of the code is.
unfoldable pub how_much_time_from_now : ℕ → ℕ → Timespec
how_much_time_from_now when now =
    let microseconds = if ltb (when - now) 100 then 100 else when - now in
    record {
      tv_sec = microseconds / micro_seconds_per_second;
      tv_nsec = microseconds % micro_seconds_per_second * 1000;
    }

abbrev pub max_pointer : ℕ
max_pointer = 2 ^ 64 - 1

-- The heap with `entry` at the address `p`.
unfoldable pub set_heap :
    {F : Type 0} → (ℕ → Option (Timer F)) → ℕ → Option (Timer F) → ℕ → Option (Timer F)
set_heap heap p entry other = if p == other then entry else heap other

unfoldable pub earliest_changed : List Entry → ℕ → Bool
earliest_changed [] when = true
earliest_changed ((first, p) ∷ rest) when = ltb when first

module _ {F : Type 0} where
  abbrev pub empty : TimerQueue F
  empty = record {
    timers = [];
    active_timers = [];
    calling_expired_timers = false;
    canceling_timers = [];
    heap = λ p. none;
    num_created = 0;
    alarm = none;
  }

  unfoldable pub load : TimerQueue F → ℕ → Result (Timer F)
  load q p = elim (q.heap p) [ none ↦ fault dangling | some t ↦ ok t ]

  unfoldable pub delete : TimerQueue F → ℕ → Result (TimerQueue F)
  unfolding load set_heap
  delete q p = do t ← load q p; ok (record q { heap = set_heap q.heap p none })

  unfoldable pub reset_timerfd : TimerQueue F → ℕ → ℕ → TimerQueue F
  unfolding how_much_time_from_now
  reset_timerfd q expiration now = record q { alarm = some (how_much_time_from_now expiration now) }

  unfoldable pub insert : TimerQueue F → ℕ → Result (Bool × TimerQueue F)
  unfolding load earliest_changed
  insert q p = do
    t ← load q p
    ok (
      earliest_changed q.timers t.expiration,
      record q {
        timers = set_insert (t.expiration, p) q.timers;
        active_timers = set_insert (p, t.sequence) q.active_timers;
      },
    )

  unfoldable pub add_timer_in_loop : ℕ → ℕ → TimerQueue F → Result (TimerQueue F)
  unfolding insert reset_timerfd load
  add_timer_in_loop clock p q = do
    (earliest, q') ← insert q p
    if earliest then (do t ← load q' p; ok (reset_timerfd q' t.expiration clock)) else ok q'

  -- `new Timer(...)` at the address `p` that the allocator gives.
  unfoldable pub new_timer : ℕ → F → ℕ → Seconds → TimerQueue F → TimerQueue F
  unfolding set_heap
  new_timer p cb when interval q =
      let t = Timer.new q.num_created cb when interval in
      record q { heap = set_heap q.heap p (some t); num_created = q.num_created + 1 }

  -- `TimerId(timer, timer->sequence())`, which reads the timer after it was given to the loop.
  unfoldable pub timer_id : ℕ → TimerQueue F → Result TimerId
  unfolding load
  timer_id p q = do t ← load q p; ok (record { timer = p; sequence = t.sequence })

  -- `addTimer` in the thread of the loop, outside its queue of tasks.
  unfoldable pub add_timer :
      ℕ → ℕ → F → ℕ → Seconds → TimerQueue F → Result (TimerId × TimerQueue F)
  unfolding new_timer add_timer_in_loop timer_id
  add_timer clock p cb when interval q = do
    q' ← add_timer_in_loop clock p (new_timer p cb when interval q)
    id ← timer_id p q'
    ok (id, q')

  unfoldable pub cancel_in_loop : TimerId → TimerQueue F → Result (TimerQueue F)
  unfolding load delete
  cancel_in_loop id q =
      let timer : ActiveTimer = (id.timer, id.sequence) in
      if contains q.active_timers timer
      then (do
        t ← load q id.timer
        q' ← delete (record q { timers = set_erase (t.expiration, id.timer) q.timers }) id.timer
        ok (record q' { active_timers = set_erase timer q'.active_timers }))
      else if q.calling_expired_timers
      then ok (record q { canceling_timers = set_insert timer q.canceling_timers })
      else ok q

  -- The loop of `getExpired` that takes the expired timers out of the active ones.
  unfoldable pub deactivate : List Entry → TimerQueue F → Result (TimerQueue F)
  unfolding load
  deactivate [] q = ok q
  deactivate ((when, p) ∷ expired) q = do
    t ← load q p
    deactivate expired (record q { active_timers = set_erase (p, t.sequence) q.active_timers })

  unfoldable pub get_expired : ℕ → TimerQueue F → Result (List Entry × TimerQueue F)
  unfolding deactivate
  get_expired now q = do
    let expired = before (now, max_pointer) q.timers
    q' ← deactivate expired (record q { timers = from (now, max_pointer) q.timers })
    ok (expired, q')

  -- One round of the loop of `reset`.
  unfoldable pub reset_one : ℕ → ℕ → TimerQueue F → Result (TimerQueue F)
  unfolding load delete insert set_heap
  reset_one now p q = do
    t ← load q p
    if t.repeat && not (contains q.canceling_timers (p, t.sequence))
        then (do
          t' ← restart now t
          (_, q') ← insert (record q { heap = set_heap q.heap p (some t') }) p
          ok q')
        else delete q p

  unfoldable pub reset_all : List Entry → ℕ → TimerQueue F → Result (TimerQueue F)
  unfolding reset_one
  reset_all [] now q = ok q
  reset_all ((when, p) ∷ expired) now q = do q' ← reset_one now p q; reset_all expired now q'

  -- The timer descriptor set to the first expiration, where one waits.
  unfoldable pub set_next_alarm : ℕ → TimerQueue F → Result (TimerQueue F)
  unfolding load reset_timerfd
  set_next_alarm clock q = elim q.timers [
    | [] ↦ ok q
    | (when, p) ∷ rest ↦ do
      t ← load q p
      if valid t.expiration then ok (reset_timerfd q t.expiration clock) else ok q
  ]

  unfoldable pub reset : List Entry → ℕ → ℕ → TimerQueue F → Result (TimerQueue F)
  unfolding reset_all set_next_alarm
  reset expired now clock q = do q' ← reset_all expired now q; set_next_alarm clock q'

  -- What a callback does to the queue is an argument.
  unfoldable pub run_expired :
      (F → TimerQueue F → Result (TimerQueue F)) → List Entry → TimerQueue F → Result (TimerQueue F)
  unfolding load
  run_expired run [] q = ok q
  run_expired run ((when, p) ∷ expired) q = do
    t ← load q p
    q' ← run t.callback q
    run_expired run expired q'

  -- `now` is the clock at the start, `clock` that at the end. The read of the descriptor clears it.
  unfoldable pub handle_read :
      (F → TimerQueue F → Result (TimerQueue F)) → ℕ → ℕ → TimerQueue F → Result (TimerQueue F)
  unfolding get_expired run_expired reset
  handle_read run now clock q = do
    (expired, q1) ← get_expired now (record q { alarm = none })
    q2 ←
        run_expired run expired (record q1 { calling_expired_timers = true; canceling_timers = [] })
    reset expired now clock (record q2 { calling_expired_timers = false })

  -- The loop of the destructor.
  unfoldable pub delete_all : List Entry → TimerQueue F → Result (TimerQueue F)
  unfolding delete
  delete_all [] q = ok q
  delete_all ((when, p) ∷ timers) q = do q' ← delete q p; delete_all timers q'

  -- The destructor, without what it does to the descriptor's channel.
  unfoldable pub destroy : TimerQueue F → Result (TimerQueue F)
  unfolding delete_all
  destroy q = delete_all q.timers q
