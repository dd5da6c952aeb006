-- ===== src/App/Backend.antt =====
-- app/http_proxy_handler.cpp and app/load_balancer_handler.cpp: what both handlers do with the connection
-- to a backend.
pub mod Sending
pub mod Samples
use my_net_core_proxy.Prelude.{ℕ, ◌*◌, Option, none, some, Result, ok}
use my_net_core_proxy.Net.EventLoop.{Epoll}
use my_net_core_proxy.Net.TcpConnection.{TcpConnection, Environment, destroy}

-- What `socket` and `connect` answer: no socket, an error other than EINPROGRESS, or a descriptor.
pub data Connect : Type 0 where
  no_socket connect_failed : Connect
  socket_fd : ℕ → Connect

-- `b` with the state of the loop that `a` left.
abbrev pub on_loop_of : {St : Type 0} → TcpConnection St → TcpConnection St → TcpConnection St
on_loop_of a b = record b { watch = record b.watch { loop = a.watch.loop } }

abbrev pub relay_mark : ℕ
relay_mark = 64 * 1024 * 1024

module _ (kernel : Epoll) (back_env : Environment kernel.State) where
  -- `backend_conn_.reset()`: the last reference, so the destructor runs.
  unfoldable pub release : Option (TcpConnection kernel.State) → Result (Unit {0})
  release none = ok tt
  release (some b) = destroy kernel back_env b
