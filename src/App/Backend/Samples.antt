-- ===== src/App/Backend/Samples.antt =====
-- Concrete connections, sockets and conversions for the runs of the handlers.
use my_net_core_proxy.Prelude.{ℕ, refl, true, false, List, [], ◌∷◌, length, ok, arith}
use my_net_core_proxy.Net.Buffer.{Buffer}
use my_net_core_proxy.Net.Buffer.Valid.{IsValid}
use my_net_core_proxy.Net.Channel.{negsuc}
use my_net_core_proxy.Net.EventLoop.{EventLoop}
use my_net_core_proxy.Net.EventLoop.Table.{State, nothing, table}
use my_net_core_proxy.Net.InetAddress.{InetAddress, InetText}
use my_net_core_proxy.Net.TcpConnection.{
  TcpConnection, Environment, Written, wrote, Task, connected,
}
use my_net_core_proxy.App.Backend.{Connect, connect_failed}
use my_net_core_proxy.App.Backend.Sending.{Plain}

-- A socket that takes everything.
abbrev pub takes_all : ℕ → List ℕ → Written
takes_all k xs = wrote (length xs)

abbrev pub quiet : Environment State
quiet = record { on = λ h c. ok c; write = takes_all; stale_errno = 11 }

pub quiet-Plain : Plain table quiet
quiet-Plain = record {
  takes = λ k xs n e. ground arith;
  quiet_complete = λ c. refl;
  quiet_mark = λ c. refl;
}

abbrev pub here : EventLoop State Task
here = record {
  epoll = nothing;
  looping = true;
  quitting = false;
  in_loop_thread = true;
  calling_pending_functors = false;
  pending_functors = [];
  wakeups = 0;
}

abbrev pub empty : Buffer
empty = record {
  buffer = 0 ∷ 0 ∷ 0 ∷ 0 ∷ 0 ∷ 0 ∷ 0 ∷ 0 ∷ 0 ∷ 0 ∷ [];
  reader_index = 8;
  writer_index = 8;
}

pub empty-IsValid : IsValid empty
empty-IsValid = omega arith

abbrev pub input : Buffer
input = record {
  buffer = 0 ∷ 0 ∷ 0 ∷ 0 ∷ 0 ∷ 0 ∷ 0 ∷ 0 ∷ 5 ∷ 6 ∷ [];
  reader_index = 8;
  writer_index = 10;
}

pub input-IsValid : IsValid input
input-IsValid = omega arith

abbrev pub connection : ℕ → Buffer → TcpConnection State
connection fd input_buffer = record {
  state = connected;
  watch = record {
    channel = record { fd = fd; events = 1; revents = 0; index = negsuc 0 };
    loop = here;
  };
  input_buffer = input_buffer;
  output_buffer = empty;
  has = λ h. true;
  high_water_mark = 64;
  calls = [];
  sent = [];
}

abbrev pub texts : InetText
texts = record { inet_addr = λ s. 0; inet_ntop = λ n. [] }

abbrev pub no_connect : InetAddress → Connect
no_connect a = connect_failed
