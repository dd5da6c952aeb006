-- ===== src/Demos/Echo.antt =====
-- demos/echo_server.cpp: the callbacks that main() sets, and the timer that ends the program. The rest of
-- what a connection calls, its close callback, belongs to the server.
pub mod Echoing
pub mod Accepting
mod Tests
use my_net_core_proxy.Prelude.{ℕ, ltb, if◌then◌else◌, true, Option, none, some, Result, ok, ◌>>=◌}
use my_net_core_proxy.Net.Buffer.{retrieve_all_as_string}
use my_net_core_proxy.Net.EventLoop.{Epoll, EventLoop, quit}
use my_net_core_proxy.Net.EventLoop.Timing.{Moment, run_after}
use my_net_core_proxy.Net.Server.{Server}
use my_net_core_proxy.Net.Server.Callbacks.{unset, set_connection_callback, set_message_callback}
use my_net_core_proxy.Net.Timestamp.{Seconds}
use my_net_core_proxy.Net.TcpConnection.{
  TcpConnection, Environment, Hook, connection_callback, message_callback,
}
use my_net_core_proxy.Net.TcpConnection.Io.{send}
use my_net_core_proxy.Net.Timer.{TimerId}
use my_net_core_proxy.Net.TimerQueue.{TimerQueue}

module _ (kernel : Epoll) (server : Environment kernel.State) where
  -- The message callback: what waits is taken out and sent back.
  unfoldable pub echo : TcpConnection kernel.State → Result (TcpConnection kernel.State)
  echo conn = do
    (msg, buffer') ← retrieve_all_as_string conn.input_buffer
    send kernel server msg (record conn { input_buffer = buffer' })

  -- The connection callback only logs.
  unfoldable pub on_hook : Hook → TcpConnection kernel.State → Result (TcpConnection kernel.State)
  unfolding echo
  on_hook connection_callback conn = ok conn
  on_hook message_callback conn = echo conn
  on_hook h conn = server.on h conn

  unfoldable pub echo_environment : Environment kernel.State
  unfolding on_hook
  echo_environment = record { on = on_hook; write = server.write; stale_errno = server.stale_errno }

-- The server of main(), with its two callbacks set.
unfoldable pub configured : {St : Type 0} → Server St
unfolding set_connection_callback set_message_callback
configured = set_message_callback true (set_connection_callback true unset)

-- What the timer of main() calls.
pub data Exit : Type 0 where
  quits : Exit

-- The timer that ends the program, for the number that `atoi` makes of the variable, if it is set and
-- the number not negative, and for the division by 1000.0.
unfoldable pub arm_exit :
    (ℕ → Seconds) → Moment → Option ℕ → TimerQueue Exit → Result (Option TimerId × TimerQueue Exit)
unfolding run_after
arm_exit over_1000 m none q = ok (none, q)
arm_exit over_1000 m (some delay_ms) q =
    if ltb 0 delay_ms
    then (do (id, q') ← run_after m (over_1000 delay_ms) quits q; ok (some id, q'))
    else ok (none, q)

unfoldable pub exit : {St T : Type 0} → Exit → EventLoop St T → EventLoop St T
unfolding quit
exit quits main_loop = quit main_loop
