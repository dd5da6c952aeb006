-- ===== src/Net/Channel.antt =====
-- net/channel.h and net/channel.cpp: the event mask of a descriptor, and the dispatch of what epoll
-- reports. The methods that go on to the loop stand in EventLoop/Watch.
pub mod Masks
pub mod Setters
mod Tests
use Prim.Native.Nat.{bit_and, bit_or}
use my_net_core_proxy.Prelude.{
  ℕ, ◌+◌, ◌-◌, ◌^◌, Bool, true, false, not, ◌==◌, if◌then◌else◌, Option, none, some, Result, ok,
  ◌>>=◌,
}

-- `negsuc n` is -(n + 1).
pub data ℤ : Type 0 where
  pos : ℕ → ℤ
  negsuc : ℕ → ℤ

-- The flags of epoll.
abbrev pub epollin : ℕ
epollin = 1

abbrev pub epollout : ℕ
epollout = 4

abbrev pub epollerr : ℕ
epollerr = 8

abbrev pub epollhup : ℕ
epollhup = 16

-- `~x` on 32 bits.
abbrev pub bit_not : ℕ → ℕ
bit_not x = 2 ^ 32 - 1 - x

pub record Channel : Type 0 where
  pub fd : ℕ
  pub events : ℕ
  pub revents : ℕ
  pub index : ℤ

abbrev pub new : ℕ → Channel
new fd = record { fd = fd; events = 0; revents = 0; index = negsuc 0 }

unfoldable pub set_revents : Channel → ℕ → Channel
set_revents c revents = record c { revents = revents }

unfoldable pub set_index : Channel → ℤ → Channel
set_index c index = record c { index = index }

-- The changes of the mask, without the `update()` that follows each of them.
unfoldable pub add_reading : Channel → Channel
add_reading c = record c { events = bit_or c.events epollin }

unfoldable pub drop_reading : Channel → Channel
drop_reading c = record c { events = bit_and c.events (bit_not epollin) }

unfoldable pub add_writing : Channel → Channel
add_writing c = record c { events = bit_or c.events epollout }

unfoldable pub drop_writing : Channel → Channel
drop_writing c = record c { events = bit_and c.events (bit_not epollout) }

unfoldable pub drop_all : Channel → Channel
drop_all c = record c { events = 0 }

unfoldable pub is_none_event : Channel → Bool
is_none_event c = c.events == 0

unfoldable pub is_reading : Channel → Bool
is_reading c = not (bit_and c.events epollin == 0)

unfoldable pub is_writing : Channel → Bool
is_writing c = not (bit_and c.events epollout == 0)

-- The callbacks of a channel, on the state of whoever owns it; `none` is an empty `std::function`.
pub record Callbacks (S : Type 0) : Type 0 where
  pub read_callback : Option (S → Result S)
  pub write_callback : Option (S → Result S)
  pub close_callback : Option (S → Result S)
  pub error_callback : Option (S → Result S)

abbrev pub call : {S : Type 0} → Option (S → Result S) → S → Result S
call none s = ok s
call (some f) s = f s

-- `if (revents_ & flags) callback();`
abbrev pub dispatch : {S : Type 0} → ℕ → ℕ → Option (S → Result S) → S → Result S
dispatch revents flags callback s = if bit_and revents flags == 0 then ok s else call callback s

unfoldable pub handle_event : {S : Type 0} → Callbacks S → ℕ → S → Result S
handle_event callbacks revents s = do
  s1 ← dispatch revents (bit_or epollerr epollhup) callbacks.error_callback s
  s2 ← dispatch revents epollin callbacks.read_callback s1
  dispatch revents epollout callbacks.write_callback s2
