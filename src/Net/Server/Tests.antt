-- ===== src/Net/Server/Tests.antt =====
-- Runs of the server, and the theorem at a concrete one.
use my_net_core_proxy.Prelude.{
  ℕ, ◌≡◌, ◌≢◌, none, length, refl, true, false, some, List, [], ◌∷◌, ◌⊎◌, ok, fault, assertion,
}
use my_net_core_proxy.Prelude.Decimal.{to_string, digits}
use my_net_core_proxy.Net.Buffer.{Buffer}
use my_net_core_proxy.Net.Channel.{negsuc}
use my_net_core_proxy.Net.EventLoop.Table.{State, nothing, table}
use my_net_core_proxy.Net.InetAddress.{InetAddress}
use my_net_core_proxy.Net.Server.Dispatch.{
  Dispatcher, new, start, new_connections, new_connections-start,
}
use my_net_core_proxy.Net.TcpConnection.{
  TcpConnection, Environment, Hook, Task, dis_connected, is_dis_connected, wrote,
  connection_callback, on_connection,
}
use my_net_core_proxy.Net.Server.Lookup.{
  Named, KeepsFd, find_by_fd-erase_connection, find_by_fd-add_connection,
}
use my_net_core_proxy.Net.Server.{
  Server, conn_name, add_connection, find_by_fd, entry, erased, count, release_entry,
  erase_connection,
}

abbrev empty : Buffer
empty = record { buffer = 0 ∷ 0 ∷ 0 ∷ 0 ∷ 0 ∷ 0 ∷ 0 ∷ 0 ∷ []; reader_index = 8; writer_index = 8 }

abbrev closed : ℕ → TcpConnection State
closed fd = record {
  state = dis_connected;
  watch = record {
    channel = record { fd = fd; events = 0; revents = 0; index = negsuc 0 };
    loop = record {
      epoll = nothing;
      looping = true;
      quitting = false;
      in_loop_thread = true;
      calling_pending_functors = false;
      pending_functors = [];
      wakeups = 0;
    };
  };
  input_buffer = empty;
  output_buffer = empty;
  has = λ h. true;
  high_water_mark = 64;
  calls = [];
  sent = [];
}

abbrev server : List (List ℕ × TcpConnection State) → Server State
server connections = record {
  connections = connections;
  has_handler_factory = true;
  has_connection_callback = false;
  has_message_callback = false;
  has_write_complete_callback = false;
}

abbrev two : Server State
two = server ((conn_name 7, closed 7) ∷ (conn_name 8, closed 8) ∷ [])

abbrev one : Server State
one = server ((conn_name 8, closed 8) ∷ [])

erase_connection-two : erase_connection (conn_name 7) two ≡ ok one
unfolding erase_connection release_entry count entry erased conn_name to_string digits
erase_connection-two = refl

abbrev any : InetAddress
any = record { addr = record { sin_family = 2; s_addr = 0; sin_port = 80 } }

-- A loop is its number.
new_connections-start_example :
    (s : Dispatcher ℕ State Task) × (new_connections (7 ∷ 8 ∷ 9 ∷ 10 ∷ 11 ∷ []) (
        start table
          (λ i. i)
          true
          true
          (start table (λ i. i) true true (new 99 (closed 4).watch.loop any (some 3) (some 4))))
      ≡ ok s)
    × (s.posted ≡ (0, 7) ∷ (1, 8) ∷ (2, 9) ∷ (3, 10) ∷ (0, 11) ∷ [])
new_connections-start_example =
    new_connections-start table (λ i. i) 99 (closed 4).watch.loop any (some 3) (some 4) true true
      (7 ∷ 8 ∷ 9 ∷ 10 ∷ 11 ∷ [])

two-Named : Named two.connections
two-Named = (refl, (refl, tt))

find_by_fd-two : find_by_fd two.connections 7 ≡ some (closed 7)
unfolding find_by_fd
find_by_fd-two = refl

find_by_fd-erase_connection_example :
    ((is_dis_connected (closed 7).state ≡ true)
      × ((s' : Server State) × (erase_connection (conn_name 7) two ≡ ok s')
          × Named s'.connections
          × (find_by_fd s'.connections 7 ≡ none)
          × ((other : ℕ)
              → 7 ≢ other
              → find_by_fd s'.connections other ≡ find_by_fd two.connections other)))
    ⊎ ((is_dis_connected (closed 7).state ≡ false)
        × (erase_connection (conn_name 7) two ≡ fault assertion))
find_by_fd-erase_connection_example =
    find_by_fd-erase_connection 7 two (closed 7) two-Named find_by_fd-two

abbrev quiet : Environment State
quiet = record { on = λ h c. ok c; write = λ k xs. wrote (length xs); stale_errno = 11 }

quiet-KeepsFd : (h : Hook) → KeepsFd table quiet h
quiet-KeepsFd h c = (c, refl, refl)

find_by_fd-one : find_by_fd one.connections 7 ≡ none
unfolding find_by_fd
find_by_fd-one = refl

find_by_fd-add_connection_example :
    (s' : Server State) × (c : TcpConnection State) × (add_connection table quiet
        (closed 7).watch.loop
        7
        one
      ≡ ok s')
    × Named s'.connections
    × (find_by_fd s'.connections 7 ≡ some c)
    × ((other : ℕ) → 7 ≢ other → find_by_fd s'.connections other ≡ find_by_fd one.connections other)
find_by_fd-add_connection_example =
    find_by_fd-add_connection table quiet (closed 7).watch.loop 7 one refl
      (quiet-KeepsFd connection_callback) (quiet-KeepsFd on_connection) (refl, tt) find_by_fd-one
