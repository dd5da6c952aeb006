-- ===== src/Net/TcpConnection.antt =====
-- net/tcp_connection.h and net/tcp_connection.cpp: one connection, its two buffers, its channel and
-- its state. The callbacks and the handler belong to the layer above: they are functions on the
-- connection, and each call of one leaves a mark in `calls`. `sent` is what the kernel took.
pub mod Setup
pub mod Io
pub mod Pausing
pub mod Closing
pub mod Kept
pub mod Output
pub mod Stream
pub mod Crossing
pub mod Flush
pub mod Reading
mod Tests
use my_net_core_proxy.Prelude.{
  ℕ, zero, suc, ◌+◌, ◌-◌, ◌*◌, Bool, true, false, not, ◌&&◌, ◌||◌, ◌==◌, ltb, leb, if◌then◌else◌,
  Option, none, some, List, [], ◌∷◌, ◌++◌, length, take, drop, Result, ok, fault, check, assertion,
  ◌>>=◌, ◌>>◌,
}
use my_net_core_proxy.Net.Buffer
use my_net_core_proxy.Net.Buffer.{Buffer, initial_size}
use my_net_core_proxy.Net.InetAddress.{InetAddress}
use my_net_core_proxy.Net.Channel
use my_net_core_proxy.Net.Channel.{is_reading, is_writing}
use my_net_core_proxy.Net.EventLoop.{Epoll, EventLoop, runs_now, enqueue}
use my_net_core_proxy.Net.EventLoop.Watch.{
  Watch, enable_reading, disable_reading, enable_writing, disable_writing, disable_all, remove,
}

pub data State : Type 0 where
  dis_connected connected connecting dis_connecting : State

-- The callbacks of the connection and the methods of its handler.
pub data Hook : Type 0 where
  connection_callback message_callback write_complete_callback high_water_mark_callback : Hook
  close_callback on_connection on_message on_close : Hook

-- What the connection hands to its loop to be run later, and what the layer above does: to make a
-- connection to a backend, at a host and a port or at an address.
pub data Task : Type 0 where
  hooks : Hook → Task
  sends : List ℕ → Task
  shuts_down starts_read stops_read : Task
  creates_backend : List ℕ → ℕ → List ℕ → Task
  connects_backend : InetAddress → Task

-- The state of a connection, with its channel and the loop of its thread. `has h` says whether the
-- `std::function` or the handler of `h` is set.
pub record TcpConnection (St : Type 0) : Type 0 where
  pub state : State
  pub watch : Watch St Task
  pub input_buffer : Buffer
  pub output_buffer : Buffer
  pub has : Hook → Bool
  pub high_water_mark : ℕ
  pub calls : List Hook
  pub sent : List ℕ

-- `state_ == s`
abbrev pub is_connected : State → Bool
is_connected connected = true
is_connected _ = false

abbrev pub is_connecting : State → Bool
is_connecting connecting = true
is_connecting _ = false

abbrev pub is_dis_connecting : State → Bool
is_dis_connecting dis_connecting = true
is_dis_connecting _ = false

abbrev pub is_dis_connected : State → Bool
is_dis_connected dis_connected = true
is_dis_connected _ = false

-- What `write` did: a count, or its `errno`.
pub data Written : Type 0 where
  wrote : ℕ → Written
  refused : ℕ → Written

-- `EAGAIN`, which is `EWOULDBLOCK` on Linux.
abbrev pub eagain : ℕ
eagain = 11

-- The layer above, and the socket: `write` is asked for the count at each call, `stale_errno` is what
-- `errno` holds where no call has set it.
pub record Environment (St : Type 0) : Type 0 where
  pub on : Hook → TcpConnection St → Result (TcpConnection St)
  pub write : ℕ → List ℕ → Written
  pub stale_errno : ℕ

module _ (kernel : Epoll) (env : Environment kernel.State) where
  abbrev Conn : Type 0
  Conn = TcpConnection kernel.State

  -- A call of a callback or of the handler that is set.
  unfoldable pub invoke : Hook → Conn → Result Conn
  invoke h c = env.on h (record c { calls = c.calls ++ h ∷ [] })

  -- `if (callback) callback(this);`
  unfoldable pub call_if_set : Hook → Conn → Result Conn
  unfolding invoke
  call_if_set h c = if c.has h then invoke h c else ok c

  unfoldable pub with_watch : Conn → Watch kernel.State Task → Conn
  with_watch c w = record c { watch = w }

  -- `loop_->runInLoop(task)`, where `now` is the task's body.
  unfoldable pub run_in_loop : Task → (Conn → Result Conn) → Conn → Result Conn
  unfolding runs_now enqueue
  run_in_loop task now c =
      if runs_now c.watch.loop
      then now c
      else ok (record c { watch = record c.watch { loop = enqueue c.watch.loop task } })

  unfoldable pub start_read_task : Conn → Conn
  start_read_task c =
      if (is_connected c.state || is_connecting c.state) && not (is_reading c.watch.channel)
      then with_watch c (enable_reading kernel c.watch)
      else c

  unfoldable pub start_read : Conn → Result Conn
  start_read = run_in_loop starts_read (λ c. ok (start_read_task c))

  unfoldable pub stop_read_task : Conn → Conn
  stop_read_task c =
      if (is_connected c.state || is_connecting c.state) && is_reading c.watch.channel
      then with_watch c (disable_reading kernel c.watch)
      else c

  unfoldable pub stop_read : Conn → Result Conn
  stop_read = run_in_loop stops_read (λ c. ok (stop_read_task c))

  -- `assert(loop_->isInLoopThread())`
  abbrev pub assert_in_loop : Conn → Result (Unit {0})
  assert_in_loop c = check c.watch.loop.in_loop_thread assertion

  unfoldable pub connect_established : Conn → Result Conn
  connect_established c = do
    assert_in_loop c
    let c1 = with_watch (record c { state = connected }) (enable_reading kernel c.watch)
    c2 ← call_if_set connection_callback c1
    call_if_set on_connection c2

  pub connect_established_as_client : Conn → Result Conn
  connect_established_as_client c = do
    assert_in_loop c
    ok (with_watch (record c { state = connecting }) (enable_writing kernel c.watch))

  -- The part of `connectDestroyed` that runs once, in the states connected and disconnecting.
  pub leave : Conn → Result Conn
  leave c =
      if is_connected c.state || is_dis_connecting c.state
      then call_if_set on_close
          (with_watch (record c { state = dis_connected }) (disable_all kernel c.watch))
      else ok c

  pub connect_destroyed : Conn → Result Conn
  connect_destroyed c = do
    assert_in_loop c
    c1 ← leave c
    w ← remove kernel c1.watch
    call_if_set close_callback (with_watch c1 w)

  pub handle_close : Conn → Result Conn
  handle_close c = do assert_in_loop c; connect_destroyed c

  pub handle_error : Conn → Result Conn
  handle_error c = do assert_in_loop c; handle_close c

  -- The destructor's assertion.
  unfoldable pub destroy : Conn → Result (Unit {0})
  destroy c = check (is_dis_connected c.state) assertion

  unfoldable pub shutdown_in_loop : Conn → Result Conn
  shutdown_in_loop c = do
    assert_in_loop c
    ok (if is_connected c.state then record c { state = dis_connecting } else c)

  unfoldable pub shutdown : Conn → Result Conn
  shutdown c =
      if c.watch.loop.in_loop_thread
      then shutdown_in_loop c
      else run_in_loop shuts_down shutdown_in_loop c
