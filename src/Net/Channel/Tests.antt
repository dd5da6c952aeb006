-- ===== src/Net/Channel/Tests.antt =====
-- Runs of the channel's dispatch.
use my_net_core_proxy.Prelude.{ℕ, ◌+◌, ◌≡◌, refl, inr, some, none, ok}
use my_net_core_proxy.Net.Channel.{Channel, negsuc, Callbacks, handle_event}
use my_net_core_proxy.Net.Channel.Masks.{IsMask}

-- A channel that is read and written.
abbrev both : Channel
both = record { fd = 7; events = 5; revents = 0; index = negsuc 0 }

both-IsMask : IsMask both.events
both-IsMask = inr (inr (inr refl))

-- Three callbacks that leave a digit each, and none for closing.
abbrev digits : Callbacks ℕ
digits = record {
  read_callback = some (λ n. ok (n + 1));
  write_callback = some (λ n. ok (n + 10));
  close_callback = none;
  error_callback = some (λ n. ok (n + 100));
}

dispatch_all : handle_event digits 29 0 ≡ ok 111
unfolding handle_event
dispatch_all = refl

dispatch_read : handle_event digits 1 0 ≡ ok 1
unfolding handle_event
dispatch_read = refl
