-- ===== src/Demos/Echo/Tests.antt =====
-- The echo server at a concrete connection, with a socket that takes everything.
use my_net_core_proxy.Prelude.{ℕ, ◌≡◌, refl, some, List, [], ◌∷◌, joined, ok, arith}
use my_net_core_proxy.Net.Buffer.Valid.{contents}
use my_net_core_proxy.Net.Buffer.Arrival.{Part}
use my_net_core_proxy.Net.EventLoop.Table.{State, table}
use my_net_core_proxy.Net.Server.{Server, conn_name, entry, add_connection}
use my_net_core_proxy.Net.TcpConnection.{TcpConnection, connected}
use my_net_core_proxy.Net.TcpConnection.Io.{left, handle_read}
use my_net_core_proxy.Net.TcpConnection.Kept.{Open, stream}
use my_net_core_proxy.App.Backend.Samples.{quiet, quiet-Plain, here}
use my_net_core_proxy.Demos.Echo.{echo_environment, configured}
use my_net_core_proxy.Demos.Echo.Echoing.{answers}
use my_net_core_proxy.Demos.Echo.Accepting.{add_connection-handle_read}

quiet-Open : Open quiet.write
quiet-Open xs errno e = cc

one : Part (1 ∷ 2 ∷ [])
one = record { some_bytes = λ e. cc; short = omega arith }

two : Part (3 ∷ [])
two = record { some_bytes = λ e. cc; short = omega arith }

abbrev parts : List (List ℕ)
parts = (1 ∷ 2 ∷ []) ∷ (3 ∷ []) ∷ []

add_connection-handle_read_example :
    (s : Server State) × (c c' : TcpConnection State) × (add_connection table
        (echo_environment table quiet)
        here
        9
        configured
      ≡ ok s)
    × (entry s.connections (conn_name 9) ≡ some c)
    × (handle_read table (echo_environment table quiet) (answers parts) c ≡ ok (left c'))
    × (stream c' ≡ 1 ∷ 2 ∷ 3 ∷ [])
    × (contents c'.input_buffer ≡ [])
    × (c'.state ≡ connected)
unfolding joined
add_connection-handle_read_example =
    add_connection-handle_read table quiet here 9 parts quiet-Plain quiet-Open refl (one, (two, tt))
      (omega arith)
