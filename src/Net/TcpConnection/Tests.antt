-- ===== src/Net/TcpConnection/Tests.antt =====
-- Runs of a connection over a table of descriptors, and each theorem at a concrete connection.
use my_net_core_proxy.Prelude.{
  ℕ, zero, suc, min, ◌≡◌, ◌≢◌, refl, inl, true, false, Option, List, [], ◌∷◌, ok, fault, assertion,
  length, joined, arith,
}
use my_net_core_proxy.Net.Buffer.{Buffer, Readv, received}
use my_net_core_proxy.Net.Buffer.Valid.{IsValid}
use my_net_core_proxy.Net.Buffer.Read.{Fits}
use my_net_core_proxy.Net.Channel.{negsuc, is_writing, handle_event}
use my_net_core_proxy.Net.EventLoop.{EventLoop}
use my_net_core_proxy.Net.EventLoop.Table.{nothing, table}
use my_net_core_proxy.Net.TcpConnection.{
  TcpConnection, Environment, State, connected, connecting, dis_connected, Written, wrote, refused,
  Task, on_close, close_callback, connect_destroyed, destroy,
}
use my_net_core_proxy.Net.TcpConnection.Io.{so_error, handle_write, callbacks}
use my_net_core_proxy.Net.TcpConnection.Closing.{
  InLoop, failed_connect_asserts, connect_destroyed_lem,
}
use my_net_core_proxy.Net.TcpConnection.Kept.{Takes, Open, stream}
use my_net_core_proxy.Net.TcpConnection.Crossing.{seen_from, send_each, drain, stream-drain}
use my_net_core_proxy.Net.TcpConnection.Stream.{SendOutcome, stream-send_in_loop}
use my_net_core_proxy.Net.TcpConnection.Flush.{FlushOutcome, stream-handle_write}
use my_net_core_proxy.Net.TcpConnection.Reading.{hang_up_closes_twice}

abbrev Table : Type 0
Table = ℕ → Option ℕ

-- The socket takes two bytes at the first call and none at the next.
abbrev two_bytes : ℕ → List ℕ → Written
two_bytes zero xs = wrote (min 2 (length xs))
two_bytes (suc k) xs = refused 11

two_bytes-Takes : Takes two_bytes
two_bytes-Takes zero xs n e = ground arith
two_bytes-Takes (suc k) xs n e = ground arith

abbrev quiet : Environment Table
quiet = record { on = λ h c. ok c; write = two_bytes; stale_errno = 11 }

abbrev here : EventLoop Table Task
here = record {
  epoll = nothing;
  looping = true;
  quitting = false;
  in_loop_thread = true;
  calling_pending_functors = false;
  pending_functors = [];
  wakeups = 0;
}

abbrev empty : Buffer
empty = record {
  buffer = 0 ∷ 0 ∷ 0 ∷ 0 ∷ 0 ∷ 0 ∷ 0 ∷ 0 ∷ 0 ∷ 0 ∷ [];
  reader_index = 8;
  writer_index = 8;
}

empty-IsValid : IsValid empty
empty-IsValid = omega arith

abbrev sample : State → ℕ → Buffer → TcpConnection Table
sample state events output_buffer = record {
  state = state;
  watch = record {
    channel = record { fd = 7; events = events; revents = 0; index = negsuc 0 };
    loop = here;
  };
  input_buffer = empty;
  output_buffer = output_buffer;
  has = λ h. true;
  high_water_mark = 64;
  calls = [];
  sent = [];
}

sample-InLoop :
    (state : State) (events : ℕ) (b : Buffer) → InLoop table quiet (sample state events b)
sample-InLoop state events b = record { in_thread = refl; no_index = refl }

failed_connect_asserts_example :
    handle_write table quiet (so_error 111) (sample connecting 4 empty) ≡ fault assertion
failed_connect_asserts_example =
    failed_connect_asserts table quiet (sample connecting 4 empty) (so_error 111)
      (sample-InLoop connecting 4 empty) refl refl pending
  where
    pending : so_error 111 ≢ so_error 0
    pending e = cc

connect_destroyed_lem_example :
    (c' : TcpConnection Table) × (connect_destroyed table quiet (sample connected 1 empty) ≡ ok c')
    × (c'.state ≡ dis_connected)
    × (c'.watch.channel.events ≡ 0)
    × (c'.calls ≡ on_close ∷ close_callback ∷ [])
    × (destroy table quiet c' ≡ ok tt)
    × InLoop table quiet c'
    × (c'.has ≡ λ h. true)
    × (c'.input_buffer ≡ empty)
connect_destroyed_lem_example =
    connect_destroyed_lem table quiet (sample connected 1 empty) (sample-InLoop connected 1 empty)
      (λ c. refl) (λ c. refl) (inl refl)

stream-send_in_loop_example : SendOutcome table quiet (5 ∷ 6 ∷ 7 ∷ []) (sample connected 1 empty)
stream-send_in_loop_example =
    stream-send_in_loop table quiet two_bytes-Takes (λ c. refl) (λ c. refl) (5 ∷ 6 ∷ 7 ∷ [])
      (sample connected 1 empty) refl refl empty-IsValid (omega arith)

-- 5 6 7 wait to be sent.
abbrev waiting : Buffer
waiting = record {
  buffer = 0 ∷ 0 ∷ 0 ∷ 0 ∷ 0 ∷ 0 ∷ 0 ∷ 0 ∷ 5 ∷ 6 ∷ 7 ∷ [];
  reader_index = 8;
  writer_index = 11;
}

waiting-IsValid : IsValid waiting
waiting-IsValid = omega arith

stream-handle_write_example :
    FlushOutcome table quiet
      (sample connected 5 waiting)
      (handle_write table quiet (so_error 0) (sample connected 5 waiting))
unfolding is_writing
stream-handle_write_example =
    stream-handle_write table quiet (so_error 0) (sample connected 5 waiting) refl refl refl
      (λ c. refl) waiting-IsValid

abbrev ends : ℕ → Readv
ends cap = received []

ends-Fits : Fits ends
ends-Fits cap xs e = ground arith

hang_up_closes_twice_example :
    (c' : TcpConnection Table) × (handle_event
        (callbacks table quiet (ends ∷ []) (so_error 0))
        17
        (sample connected 1 empty)
      ≡ ok c')
    × (c'.calls ≡ on_close ∷ close_callback ∷ close_callback ∷ [])
hang_up_closes_twice_example =
    hang_up_closes_twice table quiet (sample connected 1 empty) 17 (so_error 0) ends []
      (sample-InLoop connected 1 empty) (λ c. refl) (λ c. refl) (inl refl) refl refl refl refl refl
      ends-Fits empty-IsValid (omega arith)

two_bytes-Open : Open two_bytes
two_bytes-Open xs errno e = cc

-- Of three bytes and one, the socket takes two and then two.
stream-drain_example :
    (c1 c2 : TcpConnection Table) × (send_each table quiet
        (λ t c. ok c)
        ((5 ∷ 6 ∷ 7 ∷ []) ∷ (8 ∷ []) ∷ [])
        (seen_from false (sample connected 1 empty))
      ≡ ok c1)
    × (stream c1 ≡ [])
    × (drain table quiet (λ t c. ok c) (seen_from true c1) ≡ ok c2)
    × (stream c2 ≡ 5 ∷ 6 ∷ 7 ∷ 8 ∷ [])
unfolding joined
stream-drain_example =
    stream-drain table quiet (λ t c. ok c) two_bytes-Takes (λ c. refl) (λ c. refl) two_bytes-Open
      ((5 ∷ 6 ∷ 7 ∷ []) ∷ (8 ∷ []) ∷ []) (sample connected 1 empty) refl refl empty-IsValid
      (omega arith)
