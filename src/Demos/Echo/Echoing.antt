-- ===== src/Demos/Echo/Echoing.antt =====
-- demos/echo_server.cpp: what arrives at a connection goes back on it.
use my_net_core_proxy.Prelude.{
  ℕ, ◌+◌, ◌≤◌, ◌≡◌, refl, sym, ◌∙◌, ap, subst, true, false, List, [], ◌∷◌, ◌++◌, append_assoc,
  append-nil, length, joined, length-append, ok, arith,
}
use my_net_core_proxy.Net.Buffer.{
  Buffer, Readv, received, failed, retrieve_all, read_fd, max_size, extra_size,
}
use my_net_core_proxy.Net.Buffer.Valid.{IsValid, contents}
use my_net_core_proxy.Net.Buffer.Arrival.{Part, arrived, read_fd-arrived, read_fd-failed}
use my_net_core_proxy.Net.Buffer.Storage.{storage-retrieve_all}
use my_net_core_proxy.Net.Buffer.Strings.{retrieve_all_as_string_lem}
use my_net_core_proxy.Net.EventLoop.{Epoll}
use my_net_core_proxy.Net.TcpConnection.{
  TcpConnection, Environment, connected, eagain, message_callback, on_message, call_if_set, invoke,
}
use my_net_core_proxy.Net.TcpConnection.Io.{left, send, deliver, read_loop, handle_read}
use my_net_core_proxy.Net.TcpConnection.Kept.{Open, stream, Buffered, Kept}
use my_net_core_proxy.Net.TcpConnection.Stream.{send_in_loop_taken}
use my_net_core_proxy.App.Backend.Sending.{Plain}
use my_net_core_proxy.Demos.Echo.{echo, on_hook, echo_environment}

abbrev pub Parts : List (List ℕ) → Type 0
Parts [] = Unit {0}
Parts (xs ∷ parts) = Part xs × Parts parts

-- The answers of `readv` while the parts arrive, and then nothing.
unfoldable pub answers : List (List ℕ) → List (ℕ → Readv)
answers [] = (λ cap. failed eagain) ∷ []
answers (xs ∷ parts) = arrived xs ∷ answers parts

module _ (kernel : Epoll) (server : Environment kernel.State) where
  -- A connection that the server has set up without a handler, with no bytes to read, and with room
  -- for `n` more in each direction.
  pub record Serving (n : ℕ) (c : TcpConnection kernel.State) : Type 0 where
    pub up : c.state ≡ connected
    pub in_thread : c.watch.loop.in_loop_thread ≡ true
    pub no_handler : c.has on_message ≡ false
    pub set : c.has message_callback ≡ true
    pub input_valid : IsValid c.input_buffer
    pub no_input : contents c.input_buffer ≡ []
    pub input_room : length c.input_buffer.buffer + n + extra_size ≤ max_size
    pub output_valid : IsValid c.output_buffer
    pub output_room : c.output_buffer.writer_index + n ≤ max_size

  send_taken :
      (message : List ℕ) (c : TcpConnection kernel.State)
      → Plain kernel server
      → Open server.write
      → c.watch.loop.in_loop_thread ≡ true
      → c.state ≡ connected
      → IsValid c.output_buffer
      → c.output_buffer.writer_index + length message ≤ max_size
      → (c' : TcpConnection kernel.State) × (send kernel server message c ≡ ok c')
        × (stream c' ≡ stream c ++ message)
        × Buffered (length message) c c'
  unfolding send
  send_taken message c p o here up v room =
      let (c', e, bytes, b) =
        send_in_loop_taken kernel server p.takes p.quiet_complete p.quiet_mark o message c here up v
          room in
      (c', ground (arith, here, e), bytes, b)

  -- One part arrives, and is sent back.
  round :
      (xs : List ℕ) (n : ℕ) (c : TcpConnection kernel.State)
      → Plain kernel server
      → Open server.write
      → Part xs
      → Serving (length xs + n) c
      → (b : Buffer) × (c' : TcpConnection kernel.State) × (read_fd c.input_buffer (arrived xs)
          ≡ ok (received xs, b))
        × (deliver kernel (echo_environment kernel server) (record c { input_buffer = b }) ≡ ok c')
        × (stream c' ≡ stream c ++ xs)
        × Serving n c'
  unfolding deliver call_if_set invoke echo_environment on_hook echo
  round xs n c p o part s =
      let (b, read, v, bytes, size) =
        read_fd-arrived {b = c.input_buffer} xs part s.input_valid (omega (arith, s.input_room)) in
      let all : contents b ≡ xs = bytes ∙ ap (λ l. l ++ xs) s.no_input in
      let (took, v', gone) = retrieve_all_as_string_lem {b = b} v in
      let c1 : TcpConnection kernel.State = record c {
        input_buffer = retrieve_all b;
        calls = c.calls ++ message_callback ∷ [];
      } in
      let (c', sent, stream', buffered) =
        send_taken xs c1 p o s.in_thread s.up s.output_valid (omega (arith, s.output_room)) in
      let k : Kept c1 c' = buffered.kept in
      (
        b,
        c',
        read,
        ground (arith, s.no_handler, s.set, took, all, sent),
        stream',
        record {
          up = k.same_state ∙ s.up;
          in_thread = k.same_thread ∙ s.in_thread;
          no_handler = ap (λ f. f on_message) k.same_callbacks ∙ s.no_handler;
          set = ap (λ f. f message_callback) k.same_callbacks ∙ s.set;
          input_valid = subst IsValid (sym k.same_input) v';
          no_input = ap contents k.same_input ∙ gone;
          input_room = omega (
            arith,
            ap (λ q. length q.buffer) k.same_input,
            storage-retrieve_all b,
            size,
            s.input_room,
          );
          output_valid = buffered.valid;
          output_room = omega (arith, buffered.front, s.output_room);
        },
      )

  read_loop_lem :
      (parts : List (List ℕ)) (c : TcpConnection kernel.State)
      → Plain kernel server
      → Open server.write
      → Parts parts
      → Serving (length (joined parts)) c
      → (c' : TcpConnection kernel.State) × (read_loop kernel
            (echo_environment kernel server)
            (answers parts)
            c
          ≡ ok (left c'))
        × (stream c' ≡ stream c ++ joined parts)
        × Serving 0 c'
  unfolding read_loop answers joined
  read_loop_lem [] c p o all s =
      (c, ground (arith, read_fd-failed c.input_buffer eagain), sym (append-nil (stream c)), s)
  read_loop_lem (xs ∷ parts) c p o all s =
      let (b, c1, read, delivered, stream1, s1) =
        round xs (length (joined parts)) c p o all.0
          (subst (λ k. Serving k c) (length-append xs (joined parts)) s) in
      let (c2, rest, stream2, s2) = read_loop_lem parts c1 p o all.1 s1 in
      (
        c2,
        one xs parts c b c1 c2 all.0 read delivered rest,
        stream2 ∙ ap (λ l. l ++ joined parts) stream1 ∙ append_assoc (stream c) xs (joined parts),
        s2,
      )
    where
      one :
          (xs : List ℕ) (parts : List (List ℕ)) (c : TcpConnection kernel.State) (b : Buffer)
          (c1 c2 : TcpConnection kernel.State)
          → Part xs
          → read_fd c.input_buffer (arrived xs) ≡ ok (received xs, b)
          → deliver kernel (echo_environment kernel server) (record c { input_buffer = b }) ≡ ok c1
          → read_loop kernel (echo_environment kernel server) (answers parts) c1 ≡ ok (left c2)
          → read_loop kernel (echo_environment kernel server) (arrived xs ∷ answers parts) c
            ≡ ok (left c2)
      one [] parts c b c1 c2 p read delivered rest = absurd (p.some_bytes refl)
      one (x ∷ xs) parts c b c1 c2 p read delivered rest = ground (arith, read, delivered, rest)

  -- All that arrives goes to the stream, and the connection stays open.
  pub stream-handle_read :
      (parts : List (List ℕ)) (c : TcpConnection kernel.State)
      → Plain kernel server
      → Open server.write
      → Parts parts
      → Serving (length (joined parts)) c
      → (c' : TcpConnection kernel.State) × (handle_read kernel
            (echo_environment kernel server)
            (answers parts)
            c
          ≡ ok (left c'))
        × (stream c' ≡ stream c ++ joined parts)
        × (contents c'.input_buffer ≡ [])
        × (c'.state ≡ connected)
  unfolding handle_read
  stream-handle_read parts c p o all s =
      let (c', done, bytes, s') = read_loop_lem parts c p o all s in
      (c', ground (arith, s.in_thread, done), bytes, s'.no_input, s'.up)
