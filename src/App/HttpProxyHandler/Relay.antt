-- ===== src/App/HttpProxyHandler/Relay.antt =====
-- app/http_proxy_handler.cpp: the handler with its frontend connection and the backend connection that
-- it keeps. Both run on one loop, so the state of the loop goes along from one to the other.
use my_net_core_proxy.Prelude.{
  ℕ, Bool, true, false, ◌||◌, ltb, if◌then◌else◌, Option, none, some, List, [], ◌∷◌, Result, ok,
  ◌>>=◌, ◌>>◌,
}
use my_net_core_proxy.Prelude.Slices.{load}
use my_net_core_proxy.Net.Buffer.{peek, readable_bytes, retrieve_all_as_string}
use my_net_core_proxy.Net.EventLoop.{Epoll, runs_now, enqueue}
use my_net_core_proxy.Net.InetAddress
use my_net_core_proxy.Net.InetAddress.{InetAddress, InetText}
use my_net_core_proxy.Net.TcpConnection.{
  TcpConnection, Environment, is_connected, connect_established_as_client, shutdown,
  creates_backend, connection_callback, message_callback, write_complete_callback,
}
use my_net_core_proxy.Net.TcpConnection.Setup
use my_net_core_proxy.Net.TcpConnection.Setup.{set_callback, set_high_water_mark_callback}
use my_net_core_proxy.Net.TcpConnection.Io.{send}
use my_net_core_proxy.App.Backend.{
  Connect, no_socket, connect_failed, socket_fd, on_loop_of, relay_mark, release,
}
use my_net_core_proxy.App.HttpProxyHandler.{
  not_found, invalid_address, invalid_port, backend, resolve, not_found_response, parse_header,
  parse_path, host_key, modify_request_for_backend,
}

pub record HttpProxyHandler (St : Type 0) : Type 0 where
  pub frontend : TcpConnection St
  pub routing_table : List (List ℕ × List ℕ)
  pub waiting_for_initial_data : Bool
  pub backend_conn : Option (TcpConnection St)

abbrev pub is_empty : List ℕ → Bool
is_empty [] = true
is_empty (c ∷ cs) = false

module _ (kernel : Epoll) (front_env back_env : Environment kernel.State) (text : InetText)
    (connect : InetAddress → Connect) where
  abbrev pub Handler : Type 0
  Handler = HttpProxyHandler kernel.State

  unfoldable pub setup_bidirectional_relay : Handler → TcpConnection kernel.State → Handler
  setup_bidirectional_relay r b = record r {
    backend_conn = some (
        set_callback connection_callback true (
          set_callback message_callback true (
            set_callback write_complete_callback true
              (set_high_water_mark_callback true relay_mark b))));
    frontend =
        set_callback write_complete_callback true
          (set_high_water_mark_callback true relay_mark r.frontend);
    waiting_for_initial_data = false;
  }

  -- `backend_conn_->connectEstablishedAsClient()`
  unfoldable pub start_backend : Handler → Result Handler
  start_backend r = elim r.backend_conn [
    | none ↦ ok r
    | some b ↦ do
      b' ← connect_established_as_client kernel back_env (on_loop_of r.frontend b)
      ok (record r { backend_conn = some b'; frontend = on_loop_of b' r.frontend })
  ]

  unfoldable pub create_backend_connection : InetAddress → Handler → Result Handler
  unfolding setup_bidirectional_relay start_backend release
  create_backend_connection address r = elim (connect address) [
    | no_socket ↦ ok r
    | connect_failed ↦ ok r
    | socket_fd fd ↦ do
      b ← Setup.new r.frontend.watch.loop fd
      release kernel back_env r.backend_conn
      start_backend (setup_bidirectional_relay r b)
  ]

  unfoldable pub start_forwarding : List ℕ → Handler → Result Handler
  unfolding create_backend_connection runs_now enqueue
  start_forwarding path r = elim (resolve r.routing_table path) [
    | not_found ↦ do
      f ← send kernel front_env not_found_response r.frontend
      f' ← shutdown kernel front_env f
      ok (record r { frontend = f' })
    | invalid_address ↦ ok r
    | invalid_port ↦ ok r
    | backend ip port backend_addr ↦
        let w = r.frontend.watch in
        if runs_now w.loop
        then create_backend_connection (InetAddress.new text ip port) r
        else ok (record r {
          frontend = record r.frontend {
            watch = record w { loop = enqueue w.loop (creates_backend ip port backend_addr) };
          };
        })
  ]

  -- What is read from the frontend goes to the backend, once that is connected.
  unfoldable pub forward_request : Handler → Result Handler
  forward_request r = elim r.backend_conn [
    | none ↦ ok r
    | some b ↦
        if is_connected b.state
        then (do
          (request, input') ← retrieve_all_as_string r.frontend.input_buffer
          b' ← send kernel back_env request (on_loop_of r.frontend b)
          ok (record r {
            backend_conn = some b';
            frontend = on_loop_of b' (record r.frontend { input_buffer = input' });
          }))
        else ok r
  ]

  unfoldable pub first_request : Handler → Result Handler
  unfolding start_forwarding
  first_request r = do
    let input = r.frontend.input_buffer
    preview ← load input.buffer (peek input) (readable_bytes input)
    if is_empty (parse_header preview host_key) || is_empty (parse_path preview)
        then ok r
        else start_forwarding (parse_path preview) r

  unfoldable pub on_message : Handler → Result Handler
  unfolding first_request forward_request
  on_message r = if r.waiting_for_initial_data then first_request r else forward_request r

  unfoldable pub on_close : Handler → Result Handler
  unfolding release
  on_close r = do release kernel back_env r.backend_conn; ok (record r { backend_conn = none })

  -- The backend's message callback, for the backend `b` with its input.
  unfoldable pub forward_response :
      TcpConnection kernel.State → Handler → Result (TcpConnection kernel.State × Handler)
  forward_response b r = do
    (response, input') ← retrieve_all_as_string b.input_buffer
    let b1 : TcpConnection kernel.State = record b { input_buffer = input' }
    if is_connected r.frontend.state
        then (do
          f ← send kernel front_env response (on_loop_of b1 r.frontend)
          ok (on_loop_of f b1, record r { frontend = f }))
        else ok (b1, r)

  -- The backend's connection callback, for the backend address `backend_addr`.
  unfoldable pub backend_established : List ℕ → Handler → Result Handler
  backend_established backend_addr r = elim r.backend_conn [
    | none ↦ do f ← shutdown kernel front_env r.frontend; ok (record r { frontend = f })
    | some b ↦
        if is_connected b.state
        then (if ltb 0 (readable_bytes r.frontend.input_buffer)
            then (do
              (request, input') ← retrieve_all_as_string r.frontend.input_buffer
              b' ←
                  send kernel back_env (modify_request_for_backend request backend_addr)
                    (on_loop_of r.frontend b)
              ok (record r {
                backend_conn = some b';
                frontend = on_loop_of b' (record r.frontend { input_buffer = input' });
              }))
            else ok r)
        else (do f ← shutdown kernel front_env r.frontend; ok (record r { frontend = f }))
  ]
