-- ===== src/Net/Server/Callbacks.antt =====
-- net/server.h: the setters of the server.
use my_net_core_proxy.Prelude.{Bool, false, []}
use my_net_core_proxy.Net.Server.{Server}

module _ {St : Type 0} where
  -- The map and the callbacks of the constructor.
  abbrev pub unset : Server St
  unset = record {
    connections = [];
    has_handler_factory = false;
    has_connection_callback = false;
    has_message_callback = false;
    has_write_complete_callback = false;
  }

  -- Each is given a `std::function` that is set or empty.
  unfoldable pub set_handler_factory : Bool → Server St → Server St
  set_handler_factory is_set s = record s { has_handler_factory = is_set }

  unfoldable pub set_connection_callback : Bool → Server St → Server St
  set_connection_callback is_set s = record s { has_connection_callback = is_set }

  unfoldable pub set_message_callback : Bool → Server St → Server St
  set_message_callback is_set s = record s { has_message_callback = is_set }

  unfoldable pub set_write_complete_callback : Bool → Server St → Server St
  set_write_complete_callback is_set s = record s { has_write_complete_callback = is_set }
