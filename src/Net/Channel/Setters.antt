-- ===== src/Net/Channel/Setters.antt =====
-- net/channel.cpp: the setters of the callbacks.
use my_net_core_proxy.Prelude.{Option, none, Result}
use my_net_core_proxy.Net.Channel.{Callbacks}

module _ {S : Type 0} where
  -- The callbacks of a new channel.
  abbrev pub no_callbacks : Callbacks S
  no_callbacks = record {
    read_callback = none;
    write_callback = none;
    close_callback = none;
    error_callback = none;
  }

  abbrev pub set_read_callback : Option (S → Result S) → Callbacks S → Callbacks S
  set_read_callback cb c = record c { read_callback = cb }

  abbrev pub set_write_callback : Option (S → Result S) → Callbacks S → Callbacks S
  set_write_callback cb c = record c { write_callback = cb }

  abbrev pub set_close_callback : Option (S → Result S) → Callbacks S → Callbacks S
  set_close_callback cb c = record c { close_callback = cb }

  abbrev pub set_error_callback : Option (S → Result S) → Callbacks S → Callbacks S
  set_error_callback cb c = record c { error_callback = cb }
