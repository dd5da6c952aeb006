-- ===== src/Net/TcpConnection/Io.antt =====
-- net/tcp_connection.cpp: sending, and what the connection does with readable and writable sockets.
use my_net_core_proxy.Prelude.{
  ℕ, zero, suc, ◌-◌, Bool, false, not, ◌&&◌, ◌==◌, ltb, leb, if◌then◌else◌, some, List, [], ◌∷◌,
  ◌++◌, length, take, drop, Result, ok, ◌>>=◌, ◌>>◌,
}
use my_net_core_proxy.Net.Buffer.{
  Readv, received, failed, append, retrieve, readable_bytes, read_fd, add_size,
}
use my_net_core_proxy.Net.Buffer.Valid.{contents}
use my_net_core_proxy.Net.Channel.{is_writing, Callbacks}
use my_net_core_proxy.Net.Channel.Setters.{
  no_callbacks, set_read_callback, set_write_callback, set_close_callback, set_error_callback,
}
use my_net_core_proxy.Net.EventLoop.{Epoll}
use my_net_core_proxy.Net.EventLoop.Watch.{enable_reading, enable_writing, disable_writing}
use my_net_core_proxy.Net.TcpConnection.{
  TcpConnection, Environment, connected, is_connected, is_connecting, wrote, refused, eagain,
  connection_callback, message_callback, write_complete_callback, high_water_mark_callback,
  on_message, hooks, sends, invoke, call_if_set, with_watch, run_in_loop, assert_in_loop,
  handle_close, handle_error,
}

-- What `getsockopt(SO_ERROR)` said: it failed, or the pending error of the socket.
pub data SoError : Type 0 where
  getsockopt_failed : SoError
  so_error : ℕ → SoError

-- How a run over the kernel's answers ended: by leaving the loop, or still in it.
pub data ReadLoop (A : Type 0) : Type 0 where
  left : A → ReadLoop A
  reading : A → ReadLoop A

module _ (kernel : Epoll) (env : Environment kernel.State) where
  abbrev pub Conn : Type 0
  Conn = TcpConnection kernel.State

  -- The attempt to write past an empty output buffer: the bytes that remain, whether the write failed
  -- for good, and the connection.
  unfoldable pub direct_write : List ℕ → Conn → Result (ℕ × Bool × Conn)
  direct_write message c = elim (env.write 0 message) [
    | wrote n ↦ do
      let c1 : Conn = record c { sent = c.sent ++ take n message }
      c2 ←
          if length message - n == 0
          then call_if_set kernel env write_complete_callback c1
          else ok c1
      ok (length message - n, false, c2)
    | refused errno ↦ ok (length message, not (errno == eagain), c)
  ]

  -- `if (... && high_water_mark_callback_) loop_->runInLoop(...)`
  unfoldable pub signal_high_water : ℕ → ℕ → Conn → Result Conn
  signal_high_water old_len remaining c =
      if leb c.high_water_mark (add_size old_len remaining)
        && (ltb old_len c.high_water_mark && c.has high_water_mark_callback)
      then run_in_loop kernel env (hooks high_water_mark_callback)
          (invoke kernel env high_water_mark_callback) c
      else ok c

  unfoldable pub watch_writing : Conn → Conn
  watch_writing c =
      if not (is_writing c.watch.channel)
      then with_watch kernel env c (enable_writing kernel c.watch)
      else c

  unfoldable pub buffer_rest : List ℕ → ℕ → Conn → Result Conn
  buffer_rest message remaining c = do
    output' ← append c.output_buffer (drop (length message - remaining) message)
    c1 ←
        signal_high_water (readable_bytes c.output_buffer) remaining
          (record c { output_buffer = output' })
    ok (watch_writing c1)

  -- The part of `sendInLoop` behind the direct write.
  unfoldable pub finish_send : List ℕ → ℕ × Bool × Conn → Result Conn
  finish_send message (remaining, fault_error, c) = do
    c1 ← if not fault_error && ltb 0 remaining then buffer_rest message remaining c else ok c
    if fault_error then handle_close kernel env c1 else ok c1

  unfoldable pub send_in_loop : List ℕ → Conn → Result Conn
  send_in_loop message c = do
    assert_in_loop kernel env c
    if is_connected c.state
        then (do
          tried ←
              if readable_bytes c.output_buffer == 0
              then direct_write message c
              else ok (length message, false, c)
          finish_send message tried)
        else ok c

  unfoldable pub send : List ℕ → Conn → Result Conn
  send message c =
      if c.watch.loop.in_loop_thread
      then send_in_loop message c
      else run_in_loop kernel env (sends message) (send_in_loop message) c

  -- The end of a non-blocking `connect`.
  unfoldable pub finish_connect : SoError → Conn → Result Conn
  finish_connect getsockopt_failed c = handle_close kernel env c
  finish_connect (so_error e) c =
      if e == 0
      then (do
        let c1 =
            with_watch kernel env (record c { state = connected })
              (enable_reading kernel (disable_writing kernel c.watch))
        call_if_set kernel env connection_callback c1)
      else handle_close kernel env c

  -- The output buffer has run empty.
  unfoldable pub drained : Conn → Result Conn
  drained c = do
    let c1 = with_watch kernel env c (disable_writing kernel c.watch)
    if c1.has write_complete_callback
        then run_in_loop kernel env (hooks write_complete_callback)
            (invoke kernel env write_complete_callback) c1
        else ok c1

  -- `n <= 0` after `write`, with the `errno` that holds then.
  unfoldable pub write_failed : ℕ → Conn → Result Conn
  write_failed errno c = if errno == eagain then ok c else handle_close kernel env c

  -- The loop over `write`; `k` counts the calls. Fuel of as many rounds as bytes wait is enough, since
  -- each round but the last takes one at least.
  unfoldable pub flush : ℕ → ℕ → Conn → Result Conn
  flush zero k c = ok c
  flush (suc fuel) k c =
      if readable_bytes c.output_buffer == 0
      then ok c
      else elim (env.write k (contents c.output_buffer)) [
        | refused errno ↦ write_failed errno c
        | wrote n ↦
            let c1 : Conn = record c {
              output_buffer = retrieve c.output_buffer n;
              sent = c.sent ++ take n (contents c.output_buffer);
            } in
            let rest = flush fuel (suc k) c1 in
            if n == 0
            then write_failed env.stale_errno c
            else if readable_bytes c1.output_buffer == 0
            then drained c1
            else rest
      ]

  unfoldable pub handle_write : SoError → Conn → Result Conn
  handle_write answer c = do
    assert_in_loop kernel env c
    if is_connecting c.state
        then finish_connect answer c
        else (if is_writing c.watch.channel
            then flush (readable_bytes c.output_buffer) 0 c
            else ok c)

  unfoldable pub deliver : Conn → Result Conn
  deliver c =
      if c.has on_message
      then invoke kernel env on_message c
      else call_if_set kernel env message_callback c

  -- The loop over `readFd`, for the kernel's answers in order.
  unfoldable pub read_loop : List (ℕ → Readv) → Conn → Result (ReadLoop Conn)
  read_loop [] c = ok (reading c)
  read_loop (readv ∷ answers) c = do
    (answer, input') ← read_fd c.input_buffer readv
    let c1 : Conn = record c { input_buffer = input' }
    elim answer [
      | failed errno ↦
          if errno == eagain
          then ok (left c1)
          else (do c2 ← handle_close kernel env c1; ok (left c2))
      | received [] ↦ do c2 ← handle_close kernel env c1; ok (left c2)
      | received (x ∷ xs) ↦ do c2 ← deliver c1; read_loop answers c2
    ]

  unfoldable pub handle_read : List (ℕ → Readv) → Conn → Result (ReadLoop Conn)
  handle_read answers c = do assert_in_loop kernel env c; read_loop answers c

  abbrev pub settled : ReadLoop Conn → Conn
  settled (left c) = c
  settled (reading c) = c

  -- The callbacks that the constructor gives to the channel, for the kernel's answers to come.
  abbrev pub callbacks : List (ℕ → Readv) → SoError → Callbacks Conn
  callbacks answers answer = set_error_callback (some (handle_error kernel env)) (
      set_close_callback (some (handle_close kernel env)) (
        set_write_callback (some (handle_write answer)) (
          set_read_callback (some (λ c. handle_read answers c >>= λ r. ok (settled r)))
            no_callbacks)))
