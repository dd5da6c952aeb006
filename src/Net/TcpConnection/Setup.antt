-- ===== src/Net/TcpConnection/Setup.antt =====
-- net/tcp_connection.cpp: the constructor and the setters of a connection.
use my_net_core_proxy.Prelude.{ℕ, ◌*◌, Bool, true, false, if◌then◌else◌, [], Result, ok, ◌>>=◌}
use my_net_core_proxy.Net.Buffer
use my_net_core_proxy.Net.Buffer.{initial_size}
use my_net_core_proxy.Net.Channel
use my_net_core_proxy.Net.EventLoop.{EventLoop}
use my_net_core_proxy.Net.TcpConnection.{
  TcpConnection, Hook, Task, connecting, connection_callback, message_callback,
  write_complete_callback, high_water_mark_callback, close_callback, on_connection, on_message,
  on_close,
}

unfoldable pub same_hook : Hook → Hook → Bool
same_hook connection_callback connection_callback = true
same_hook message_callback message_callback = true
same_hook write_complete_callback write_complete_callback = true
same_hook high_water_mark_callback high_water_mark_callback = true
same_hook close_callback close_callback = true
same_hook on_connection on_connection = true
same_hook on_message on_message = true
same_hook on_close on_close = true
same_hook _ _ = false

module _ {St : Type 0} where
  -- The constructor, for a descriptor and a loop; the buffers are made by theirs.
  unfoldable pub new : EventLoop St Task → ℕ → Result (TcpConnection St)
  new loop fd = do
    input ← Buffer.new initial_size
    output' ← Buffer.new initial_size
    ok (record {
      state = connecting;
      watch = record { channel = Channel.new fd; loop = loop };
      input_buffer = input;
      output_buffer = output';
      has = λ h. false;
      high_water_mark = 64 * 1024 * 1024;
      calls = [];
      sent = [];
    })

  -- A setter of a callback, given a `std::function` that is set or empty.
  unfoldable pub set_callback : Hook → Bool → TcpConnection St → TcpConnection St
  unfolding same_hook
  set_callback h is_set c = record c { has = λ k. if same_hook k h then is_set else c.has k }

  unfoldable pub set_high_water_mark_callback : Bool → ℕ → TcpConnection St → TcpConnection St
  unfolding set_callback
  set_high_water_mark_callback is_set mark c =
      record (set_callback high_water_mark_callback is_set c) { high_water_mark = mark }

  -- `setHandler`: the three methods of the handler come together.
  unfoldable pub set_handler : Bool → TcpConnection St → TcpConnection St
  unfolding set_callback
  set_handler is_set c =
      set_callback on_connection is_set
        (set_callback on_message is_set (set_callback on_close is_set c))
