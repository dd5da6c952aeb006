-- ===== src/Net/TcpConnection/Stream.antt =====
-- net/tcp_connection.cpp: the bytes given to `send` reach the socket whole and in order.
use my_net_core_proxy.Prelude.{
  ℕ, ◌+◌, ◌-◌, ◌≤◌, ◌≡◌, refl, ◌∙◌, ◌⊎◌, inl, inr, ◌≢◌, true, ◌==◌, List, [], ◌++◌, append_assoc,
  append-nil, length, take, drop, take-append-drop, Bool-cases, ok, arith,
}
use my_net_core_proxy.Net.Buffer.{readable_bytes, max_size}
use my_net_core_proxy.Net.Buffer.Valid.{IsValid, contents, length-contents, no_wrap}
use my_net_core_proxy.Net.EventLoop.{Epoll}
use my_net_core_proxy.Net.TcpConnection.{
  TcpConnection, Environment, Written, wrote, refused, eagain, connected, write_complete_callback,
  high_water_mark_callback, handle_close,
}
use my_net_core_proxy.Net.TcpConnection.Io.{direct_write, send_in_loop}
use my_net_core_proxy.Net.TcpConnection.Closing.{IsQuiet, call_if_set_quiet, marked}
use my_net_core_proxy.Net.TcpConnection.Kept.{
  Open, Takes, stream, length-zero, Buffered, Buffered-marks,
}
use my_net_core_proxy.Net.TcpConnection.Output.{finish_send_lem, finish_send_fault}

module _ (kernel : Epoll) (env : Environment kernel.State) where
  -- Either everything was sent or buffered, or the write failed for good and the connection is closed.
  abbrev pub SendOutcome : List ℕ → TcpConnection kernel.State → Type 0
  SendOutcome message c =
      ((c' : TcpConnection kernel.State) × (send_in_loop kernel env message c ≡ ok c')
        × (stream c' ≡ stream c ++ message)
        × Buffered (length message) c c')
      ⊎ ((errno : ℕ) × (errno ≢ eagain)
          × (contents c.output_buffer ≡ [])
          × (env.write 0 message ≡ refused errno)
          × (send_in_loop kernel env message c ≡ handle_close kernel env c))

  module _ (message : List ℕ) (c : TcpConnection kernel.State)
      (thread : c.watch.loop.in_loop_thread ≡ true) (state : c.state ≡ connected)
      (v : IsValid c.output_buffer)
      (room : c.output_buffer.writer_index + length message ≤ max_size)
      (quiet : IsQuiet kernel env high_water_mark_callback) where
    send_buffered : readable_bytes c.output_buffer ≢ 0 → SendOutcome message c
    unfolding send_in_loop
    send_buffered ne =
        let (c', e, bytes, v') =
          finish_send_lem kernel env message (length message) c quiet v room in
        let z : length message - length message ≡ 0 = omega arith in
        inl (c', ground (arith, e), rw z at bytes, v')

    no_bytes : readable_bytes c.output_buffer ≡ 0 → contents c.output_buffer ≡ []
    no_bytes e =
        length-zero (contents c.output_buffer) (omega (arith, length-contents v, no_wrap v))

    -- The part of the message that the socket took and the part behind it make the message up.
    assemble :
        (n : ℕ)
        → n ≤ length message
        → readable_bytes c.output_buffer ≡ 0
        → (c.sent ++ take n message ++ contents c.output_buffer)
            ++ drop (length message - (length message - n)) message
          ≡ stream c ++ message
    assemble n h e =
        let z : length message - (length message - n) ≡ n = omega arith in
        rw (
          z,
          no_bytes e,
          append-nil,
          append-nil,
          append_assoc c.sent (take n message),
          take-append-drop n message,
        )

    send_direct :
        (answer : Written)
        → env.write 0 message ≡ answer
        → ((n : ℕ) → answer ≡ wrote n → n ≤ length message)
        → IsQuiet kernel env write_complete_callback
        → readable_bytes c.output_buffer ≡ 0
        → SendOutcome message c
    unfolding send_in_loop direct_write
    send_direct (refused errno) w fits q e = elim (Bool-cases (errno == eagain)) [
      | inl again ↦
          let (c', done, bytes, v') =
            finish_send_lem kernel env message (length message) c quiet v room in
          let z : length message - length message ≡ 0 = omega arith in
          inl (c', ground (arith, w, done, again), rw z at bytes, v')
      | inr fatal ↦ inr (
        errno,
        ground arith,
        no_bytes e,
        w,
        ground (arith, w, fatal, finish_send_fault kernel env message (length message) c),
      )
    ]
    send_direct (wrote n) w fits q e = elim (Bool-cases (length message - n == 0)) [
      | inl all ↦
          let c1 : TcpConnection kernel.State = record c { sent = c.sent ++ take n message } in
          let c2 : TcpConnection kernel.State = record c1 {
            calls = c.calls ++ marked kernel env write_complete_callback c;
          } in
          let (c', done, bytes, v') =
            finish_send_lem kernel env message (length message - n) c2 quiet v room in
          inl (
            c',
            ground (arith, w, all, done, call_if_set_quiet kernel env write_complete_callback c1 q),
            bytes ∙ assemble n (fits n refl) e,
            Buffered-marks c c2.calls c2.sent v',
          )
      | inr part ↦
          let c1 : TcpConnection kernel.State = record c { sent = c.sent ++ take n message } in
          let (c', done, bytes, v') =
            finish_send_lem kernel env message (length message - n) c1 quiet v room in
          inl (
            c',
            ground (arith, w, part, done),
            bytes ∙ assemble n (fits n refl) e,
            Buffered-marks c c1.calls c1.sent v',
          )
    ]

  -- sendInLoop on a connected connection, in the thread of its loop, with a valid output buffer
  -- that has room for the message and with callbacks that leave the connection alone: if the
  -- kernel takes no more bytes than it is offered, the message stands whole and in order behind
  -- the bytes that were sent or wait, however many the socket takes at once and whether the
  -- buffer was empty, the buffer stays valid with its end moved by at most the length of the
  -- message, and the state, the thread, the callbacks and the input buffer are as before; or the
  -- direct write failed with another error than EAGAIN and the result is that of handleClose.
  pub stream-send_in_loop :
      Takes env.write
      → IsQuiet kernel env write_complete_callback
      → IsQuiet kernel env high_water_mark_callback
      → (message : List ℕ) (c : TcpConnection kernel.State) → c.watch.loop.in_loop_thread ≡ true
      → c.state ≡ connected
      → IsValid c.output_buffer
      → c.output_buffer.writer_index + length message ≤ max_size
      → SendOutcome message c
  stream-send_in_loop takes qw qh message c thread state v room =
      elim (Bool-cases (readable_bytes c.output_buffer == 0)) [
        | inl e ↦
            send_direct message c thread state v room qh (env.write 0 message) refl
              (takes 0 message) qw (ground arith)
        | inr e ↦ send_buffered message c thread state v room qh (ground arith)
      ]

  -- Where no write fails for good, the message is taken.
  pub send_in_loop_taken :
      Takes env.write
      → IsQuiet kernel env write_complete_callback
      → IsQuiet kernel env high_water_mark_callback
      → Open env.write
      → (message : List ℕ) (c : TcpConnection kernel.State) → c.watch.loop.in_loop_thread ≡ true
      → c.state ≡ connected
      → IsValid c.output_buffer
      → c.output_buffer.writer_index + length message ≤ max_size
      → (c' : TcpConnection kernel.State) × (send_in_loop kernel env message c ≡ ok c')
        × (stream c' ≡ stream c ++ message)
        × Buffered (length message) c c'
  send_in_loop_taken takes qw qh o message c here up v room =
      elim (stream-send_in_loop takes qw qh message c here up v room) [
        | inl taken ↦ taken
        | inr (errno, ne, _, w, _) ↦ absurd (ne (o message errno w))
      ]
