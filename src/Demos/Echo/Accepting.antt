-- ===== src/Demos/Echo/Accepting.antt =====
-- demos/echo_server.cpp with net/server.cpp: a connection from its acceptance to the echo of what arrives.
use my_net_core_proxy.Prelude.{
  ℕ, ◌-◌, ◌*◌, ◌≤◌, ◌≡◌, refl, ◌∙◌, ap, true, false, some, List, [], ◌∷◌, ◌++◌, length, joined, ok,
  arith,
}
use my_net_core_proxy.Net.Buffer.{max_size, extra_size, initial_size}
use my_net_core_proxy.Net.Buffer.Valid.{contents}
use my_net_core_proxy.Net.Buffer.Storage.{new-IsValid}
use my_net_core_proxy.Net.Channel
use my_net_core_proxy.Net.Channel.{add_reading}
use my_net_core_proxy.Net.EventLoop.Registration.{update_channel_lem}
use my_net_core_proxy.Net.InetAddress.Order.{string_eq_complete}
use my_net_core_proxy.Net.EventLoop.{Epoll, EventLoop}
use my_net_core_proxy.Net.EventLoop.Watch.{Watch, enable_reading, update}
use my_net_core_proxy.Net.Server.{
  Server, conn_name, entry, prepared, put, erased, release_entry, add_connection,
}
use my_net_core_proxy.Net.Server.Callbacks.{set_connection_callback, set_message_callback}
use my_net_core_proxy.Net.TcpConnection.{
  TcpConnection, Environment, Task, connected, connecting, connection_callback, connect_established,
  call_if_set, with_watch, invoke,
}
use my_net_core_proxy.Net.TcpConnection.Setup
use my_net_core_proxy.Net.TcpConnection.Setup.{set_callback, same_hook}
use my_net_core_proxy.Net.TcpConnection.Io.{left, handle_read}
use my_net_core_proxy.Net.TcpConnection.Kept.{Open, stream}
use my_net_core_proxy.App.Backend.Sending.{Plain}
use my_net_core_proxy.Demos.Echo.{echo_environment, configured, on_hook}
use my_net_core_proxy.Demos.Echo.Echoing.{Parts, answers, Serving, stream-handle_read}

module _ (kernel : Epoll) (server : Environment kernel.State) where
  add_connection-Serving :
      (loop : EventLoop kernel.State Task) (fd n : ℕ)
      → loop.in_loop_thread ≡ true
      → n ≤ max_size - 2 * extra_size
      → (s : Server kernel.State) × (c : TcpConnection kernel.State) × (add_connection kernel
            (echo_environment kernel server)
            loop
            fd
            configured
          ≡ ok s)
        × (entry s.connections (conn_name fd) ≡ some c)
        × (stream c ≡ [])
        × Serving kernel server n c
  unfolding enable_reading update erased add_connection release_entry put prepared configured
      set_connection_callback set_message_callback set_callback same_hook echo_environment on_hook
      connect_established call_if_set invoke with_watch Setup.new entry
  add_connection-Serving loop fd n here small =
      let (b, made, v, none_waits, size, end) = new-IsValid initial_size (omega arith) in
      let w : Watch kernel.State Task =
        enable_reading kernel (record { channel = Channel.new fd; loop = loop }) in
      let there : w.loop.in_loop_thread ≡ true =
        ap (λ l. l.in_loop_thread) (update_channel_lem kernel loop (add_reading (Channel.new fd))).2
        ∙ here in
      let c0 : TcpConnection kernel.State = record {
        state = connecting;
        watch = record { channel = Channel.new fd; loop = loop };
        input_buffer = b;
        output_buffer = b;
        has = λ h. false;
        high_water_mark = 64 * 1024 * 1024;
        calls = [];
        sent = [];
      } in
      let c : TcpConnection kernel.State =
        record (prepared kernel (echo_environment kernel server) configured c0) {
          state = connected;
          watch = w;
          calls = connection_callback ∷ [];
        } in
      (
        record configured { connections = (conn_name fd, c) ∷ [] },
        c,
        ground (arith, here, made, string_eq_complete (conn_name fd) (conn_name fd) refl),
        ground (arith, string_eq_complete (conn_name fd) (conn_name fd) refl),
        none_waits,
        record {
          up = refl;
          in_thread = there;
          no_handler = refl;
          set = refl;
          input_valid = v;
          no_input = none_waits;
          input_room = omega (arith, size, small);
          output_valid = v;
          output_room = omega (arith, end, small);
        },
      )

  -- For a socket that takes no more than it is offered and no write of which fails for good, with
  -- callbacks of the server that leave the connection alone: a connection that the echo server
  -- accepts in the thread of its loop stands in the server's map, and when bytes arrive in parts,
  -- each of 1 to 65536 bytes and together at most max_size less 131072, and then no more,
  -- handleRead succeeds, sends back or buffers exactly these bytes in order, leaves none in the
  -- input, and the connection stays connected.
  pub add_connection-handle_read :
      (loop : EventLoop kernel.State Task) (fd : ℕ) (parts : List (List ℕ))
      → Plain kernel server
      → Open server.write
      → loop.in_loop_thread ≡ true
      → Parts parts
      → length (joined parts) ≤ max_size - 2 * extra_size
      → (s : Server kernel.State) × (c c' : TcpConnection kernel.State) × (add_connection kernel
            (echo_environment kernel server)
            loop
            fd
            configured
          ≡ ok s)
        × (entry s.connections (conn_name fd) ≡ some c)
        × (handle_read kernel (echo_environment kernel server) (answers parts) c ≡ ok (left c'))
        × (stream c' ≡ joined parts)
        × (contents c'.input_buffer ≡ [])
        × (c'.state ≡ connected)
  add_connection-handle_read loop fd parts p o here all small =
      let (s, c, added, found, fresh, serving) =
        add_connection-Serving loop fd (length (joined parts)) here small in
      let (c', done, bytes, empty, up) = stream-handle_read kernel server parts c p o all serving in
      (s, c, c', added, found, done, bytes ∙ ap (λ l. l ++ joined parts) fresh, empty, up)
