-- ===== src/Net/Timestamp.antt =====
-- net/timestamp.h and net/timestamp.cpp: a point in time, in microseconds since the epoch. The clock
-- stands past the epoch and delays are not negative, so the `int64_t` is a number below 2 ^ 63.
pub mod Text
mod Tests
use my_net_core_proxy.Prelude.{
  ℕ, zero, suc, ◌+◌, ◌-◌, ◌*◌, ◌/◌, ◌%◌, ◌^◌, Bool, ltb, if◌then◌else◌, List, [], ◌∷◌, ◌++◌, length,
  replicate, take, Result, ok, check, overflow, ◌>>=◌, ◌>>◌,
}
use my_net_core_proxy.Prelude.Decimal
use my_net_core_proxy.Prelude.Decimal.{digits}

abbrev pub micro_seconds_per_second : ℕ
micro_seconds_per_second = 1000 * 1000

-- `Timestamp()`
abbrev pub invalid : ℕ
invalid = 0

unfoldable pub valid : ℕ → Bool
valid t = ltb 0 t

-- `now()`, for what `gettimeofday` answers: the seconds, and the microseconds above them.
unfoldable pub now : ℕ → ℕ → ℕ
now tv_sec tv_usec = tv_sec * micro_seconds_per_second + tv_usec

-- A `double` of seconds by what the code asks of it: whether it is above 0, and the microseconds that
-- `static_cast<int64_t>` leaves of it.
pub record Seconds : Type 0 where
  pub is_positive : Bool
  pub micro_seconds : ℕ

unfoldable pub add_time : ℕ → Seconds → Result ℕ
add_time timestamp seconds = do
  check (ltb (timestamp + seconds.micro_seconds) (2 ^ 63)) overflow
  ok (timestamp + seconds.micro_seconds)

-- A conversion `%0wd` or `%wd`: the digits behind as many `fill` as the width `w` leaves.
unfoldable pub padded : ℕ → ℕ → ℕ → List ℕ
padded fill w n = replicate (w - length (Decimal.to_string n)) fill ++ Decimal.to_string n

-- The text that `snprintf` leaves in a buffer of `size` bytes.
unfoldable pub cut : ℕ → List ℕ → List ℕ
cut size text = take (size - 1) text

unfoldable pub to_string : ℕ → List ℕ
unfolding padded cut
to_string t = cut 31 (
    Decimal.to_string (t / micro_seconds_per_second)
    ++ (b'.' ∷ padded b'0' 6 (t % micro_seconds_per_second)))

-- `struct tm`
pub record Tm : Type 0 where
  pub tm_year : ℕ
  pub tm_mon : ℕ
  pub tm_mday : ℕ
  pub tm_hour : ℕ
  pub tm_min : ℕ
  pub tm_sec : ℕ

-- `gmtime_r` is the argument.
unfoldable pub to_formatted_string : (ℕ → Tm) → ℕ → Bool → List ℕ
unfolding padded cut
to_formatted_string gmtime t show_microseconds =
    let tm = gmtime (t / micro_seconds_per_second) in
    let date =
      padded b' ' 4 (tm.tm_year + 1900)
      ++ padded b'0' 2 (tm.tm_mon + 1)
      ++ padded b'0' 2 tm.tm_mday in
    let time =
      padded b'0' 2 tm.tm_hour
      ++ (b':' ∷ padded b'0' 2 tm.tm_min)
      ++ (b':' ∷ padded b'0' 2 tm.tm_sec) in
    let seconds = date ++ (b' ' ∷ time) in
    cut 64 (
      if show_microseconds
      then seconds ++ (b'.' ∷ padded b'0' 6 (t % micro_seconds_per_second))
      else seconds)
