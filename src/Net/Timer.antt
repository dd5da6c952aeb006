-- ===== src/Net/Timer.antt =====
-- net/timer.h, net/timer.cpp and net/timer_id.h. `F` stands for the callback.
use my_net_core_proxy.Prelude.{ℕ, Bool, if◌then◌else◌, Result, ok, ◌>>=◌}
use my_net_core_proxy.Net.Timestamp.{Seconds, add_time, invalid}

pub record Timer (F : Type 0) : Type 0 where
  pub callback : F
  pub expiration : ℕ
  pub interval : Seconds
  pub repeat : Bool
  pub sequence : ℕ

-- The constructor, with the count of the timers made so far.
abbrev pub new : {F : Type 0} → ℕ → F → ℕ → Seconds → Timer F
new num_created cb when interval = record {
  callback = cb;
  expiration = when;
  interval = interval;
  repeat = interval.is_positive;
  sequence = num_created;
}

unfoldable pub restart : {F : Type 0} → ℕ → Timer F → Result (Timer F)
restart now t =
    if t.repeat
    then (do when ← add_time now t.interval; ok (record t { expiration = when }))
    else ok (record t { expiration = invalid })

pub record TimerId : Type 0 where
  pub timer : ℕ
  pub sequence : ℕ

-- `TimerId()`
abbrev pub null : TimerId
null = record { timer = 0; sequence = 0 }
