-- ===== src/Net/Acceptor/Tests.antt =====
-- Runs of the acceptor, and each theorem at a concrete one.
use my_net_core_proxy.Prelude.{ℕ, ◌≡◌, refl, ◌+◌, true, false, none, some, List, [], ◌∷◌, replicate}
use my_net_core_proxy.Net.EventLoop.{EventLoop}
use my_net_core_proxy.Net.EventLoop.Table.{State, nothing}
use my_net_core_proxy.Net.InetAddress.{InetAddress}
use my_net_core_proxy.Net.TcpConnection.{Task}
use my_net_core_proxy.Net.Acceptor.{
  Acceptor, Round, accepted, failed, looping, handle_read, set_new_connect_callback, new,
}
use my_net_core_proxy.Net.Acceptor.Descriptors.{
  accounted, reached, given, starved, accounted-handle_read, handle_read-starved,
}

abbrev peer : InetAddress
peer = record { addr = record { sin_family = 2; s_addr = 1; sin_port = 80 } }

abbrev loop : EventLoop State Task
loop = record {
  epoll = nothing;
  looping = true;
  quitting = false;
  in_loop_thread = true;
  calling_pending_functors = false;
  pending_functors = [];
  wakeups = 0;
}

abbrev acceptor : Acceptor State Task
acceptor = set_new_connect_callback true (new loop peer (some 4) (some 5))

abbrev round_of : ℕ → Round
round_of fd = record { accept4 = accepted fd peer; accept = none; open_null = none }

-- A connection, one that is turned away, and the end.
abbrev rounds : List Round
rounds =
    round_of 7
    ∷ (record { accept4 = failed 24; accept = some 4; open_null = some 4 })
    ∷ (record { accept4 = failed 11; accept = none; open_null = none })
    ∷ []

closed_spare : (reached (handle_read rounds acceptor)).closed ≡ 4 ∷ 4 ∷ []
unfolding handle_read set_new_connect_callback new
closed_spare = refl

accounted-handle_read_example :
    accounted 4 (reached (handle_read rounds acceptor)) ≡ accounted 4 acceptor + given 4 rounds
accounted-handle_read_example = accounted-handle_read 4 rounds acceptor

handle_read-starved_example :
    handle_read (replicate 3 (starved 24)) (record acceptor { idle_fd = none })
    ≡ looping (record acceptor { idle_fd = none })
handle_read-starved_example = handle_read-starved 24 3 acceptor refl
