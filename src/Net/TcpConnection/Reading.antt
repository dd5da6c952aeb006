-- ===== src/Net/TcpConnection/Reading.antt =====
-- net/tcp_connection.cpp and net/channel.cpp: how the end of the input and a hang-up reach the close
-- callback.
use Prim.Native.Nat.{bit_and}
use my_net_core_proxy.Prelude.{
  ℕ, ◌+◌, ◌≤◌, ◌≡◌, refl, sym, ◌∙◌, ap, subst, ◌⊎◌, inl, inr, Bool, true, false, ◌==◌,
  if◌then◌else◌, List, [], ◌∷◌, ◌++◌, append_assoc, length, Result, ok, ◌>>=◌, arith, some,
}
use my_net_core_proxy.Net.Buffer.{
  Buffer, Readv, received, failed, read_fd, iov_len, max_size, extra_size,
}
use my_net_core_proxy.Net.Buffer.Valid.{IsValid}
use my_net_core_proxy.Net.Buffer.Read.{Fits, contents-read_fd}
use my_net_core_proxy.Net.Channel.{Callbacks, handle_event}
use my_net_core_proxy.Net.EventLoop.{Epoll}
use my_net_core_proxy.Net.TcpConnection.{
  TcpConnection, Environment, Hook, connected, dis_connected, dis_connecting, on_close,
  close_callback, handle_close, handle_error,
}
use my_net_core_proxy.Net.TcpConnection.Io.{
  SoError, left, read_loop, handle_read, callbacks, settled,
}
use my_net_core_proxy.Net.TcpConnection.Closing.{
  IsQuiet, InLoop, marked, connect_destroyed_lem, connect_destroyed_again,
}

module _ (kernel : Epoll) (env : Environment kernel.State) where
  -- The kernel says that the peer has closed its side.
  abbrev pub EndOfInput : (ℕ → Readv) → Buffer → Type 0
  EndOfInput readv b = readv (iov_len b) ≡ received []

  read_fd_end :
      (readv : ℕ → Readv) (b : Buffer)
      → EndOfInput readv b
      → Fits readv
      → IsValid b
      → length b.buffer + extra_size ≤ max_size
      → (b' : Buffer) × (read_fd b readv ≡ ok (received [], b')) × IsValid b'
  read_fd_end readv b e fits v h = elim (contents-read_fd {b = b} readv fits v h) [
    | inl (errno, e', _) ↦ absurd (never errno (sym e ∙ e'))
    | inr (xs, b', e', done, v', _) ↦ (b', done ∙ ap (λ a. ok (a, b')) (sym e' ∙ e), v')
  ]
    where
      never : (errno : ℕ) → received [] ≡ failed errno → ⊥
      never errno p = cc

  -- At the end of the input the loop of `handleRead` closes the connection and stops.
  handle_read_end :
      (c : TcpConnection kernel.State) (readv : ℕ → Readv) (answers : List (ℕ → Readv))
      (b' : Buffer)
      → c.watch.loop.in_loop_thread ≡ true
      → read_fd c.input_buffer readv ≡ ok (received [], b')
      → handle_read kernel env (readv ∷ answers) c
        ≡ (handle_close kernel env (record c { input_buffer = b' }) >>= λ d. ok (left d))
  unfolding handle_read read_loop
  handle_read_end c readv answers b' t e = ground (arith, t, e)

  close_again :
      (c : TcpConnection kernel.State) (b : Buffer)
      → InLoop kernel env c
      → IsQuiet kernel env close_callback
      → c.state ≡ dis_connected
      → c.watch.channel.events ≡ 0
      → c.has close_callback ≡ true
      → (c' : TcpConnection kernel.State) × (handle_close kernel env (record c { input_buffer = b })
          ≡ ok c')
        × (c'.calls ≡ c.calls ++ close_callback ∷ [])
  unfolding handle_close
  close_again c b v qc s e h =
      let c1 : TcpConnection kernel.State = record c { input_buffer = b } in
      let (c', closed, said) =
        connect_destroyed_again kernel env c1
          (record { in_thread = v.in_thread; no_index = v.no_index }) qc s e h in
      (c', ground (arith, closed, v.in_thread), said)

  -- The read half of an event at the end of the input, on a connection that is already closed.
  read_after_close :
      (c : TcpConnection kernel.State) (readv : ℕ → Readv) (answers : List (ℕ → Readv))
      → InLoop kernel env c
      → IsQuiet kernel env close_callback
      → c.state ≡ dis_connected
      → c.watch.channel.events ≡ 0
      → c.has close_callback ≡ true
      → EndOfInput readv c.input_buffer
      → Fits readv
      → IsValid c.input_buffer
      → length c.input_buffer.buffer + extra_size ≤ max_size
      → (c' : TcpConnection kernel.State) × (handle_read kernel env (readv ∷ answers) c
          ≡ ok (left c'))
        × (c'.calls ≡ c.calls ++ close_callback ∷ [])
  read_after_close c readv answers v qc s e h end fits vb room =
      let (b', got, _) = read_fd_end readv c.input_buffer end fits vb room in
      let (c', closed, said) = close_again c b' v qc s e h in
      (
        c',
        handle_read_end c readv answers b' v.in_thread got
            ∙ ap (λ r. r >>= λ d. ok (left d)) closed,
        said,
      )

  error_and_read :
      {S : Type 0}
      → (callbacks : Callbacks S) (revents : ℕ) (s s1 s2 : S) → (bit_and revents 24 == 0) ≡ false
      → (bit_and revents 1 == 0) ≡ false
      → (bit_and revents 4 == 0) ≡ true
      → (error : S → Result S) → callbacks.error_callback ≡ some error
      → error s ≡ ok s1
      → (read : S → Result S) → callbacks.read_callback ≡ some read
      → read s1 ≡ ok s2
      → handle_event callbacks revents s ≡ ok s2
  unfolding handle_event
  error_and_read callbacks revents s s1 s2 err inp out error is_error e read is_read r =
      ground (arith, is_error, e, is_read, r)

  told_twice :
      (base first all : List Hook) (closes : Bool)
      → closes ≡ true
      → all ≡ base ++ (first ++ (if closes then close_callback ∷ [] else []))
      → all ++ close_callback ∷ [] ≡ base ++ (first ++ close_callback ∷ close_callback ∷ [])
  told_twice base first all closes h e =
      rw (e, h)
        (append_assoc base (first ++ close_callback ∷ []) (close_callback ∷ [])
          ∙ ap (λ l. base ++ l) (append_assoc first (close_callback ∷ []) (close_callback ∷ [])))

  -- An event with EPOLLERR or EPOLLHUP and EPOLLIN and without EPOLLOUT, on a connection that is
  -- connected or disconnecting, in the thread of its loop, with an index of -1, a close callback,
  -- quiet handler and close callback, and a valid input buffer with room for a read, when the
  -- kernel reports the end of the input: the event succeeds and calls the close callback twice,
  -- after one onClose if a handler is set.
  pub hang_up_closes_twice :
      (c : TcpConnection kernel.State) (revents : ℕ) (answer : SoError) (readv : ℕ → Readv)
      (answers : List (ℕ → Readv))
      → InLoop kernel env c
      → IsQuiet kernel env on_close
      → IsQuiet kernel env close_callback
      → (c.state ≡ connected) ⊎ (c.state ≡ dis_connecting)
      → c.has close_callback ≡ true
      → (bit_and revents 24 == 0) ≡ false
      → (bit_and revents 1 == 0) ≡ false
      → (bit_and revents 4 == 0) ≡ true
      → EndOfInput readv c.input_buffer
      → Fits readv
      → IsValid c.input_buffer
      → length c.input_buffer.buffer + extra_size ≤ max_size
      → (c' : TcpConnection kernel.State) × (handle_event
            (callbacks kernel env (readv ∷ answers) answer)
            revents
            c
          ≡ ok c')
        × (c'.calls
            ≡ c.calls ++ (marked kernel env on_close c ++ close_callback ∷ close_callback ∷ []))
  unfolding handle_event handle_error handle_close
  hang_up_closes_twice c revents answer readv answers v qh qc s h err inp out end fits vb room =
      let (c1, closed, gone, bare, said, _, v1, has, input) =
        connect_destroyed_lem kernel env c v qh qc s in
      let h1 : c1.has close_callback ≡ true = ap (λ f. f close_callback) has ∙ h in
      let (c2, read, said_again) =
        read_after_close c1 readv answers v1 qc gone bare h1
          (ap (λ b. readv (iov_len b)) input ∙ end) fits (subst IsValid (sym input) vb)
          (subst (λ b. length b.buffer + extra_size ≤ max_size) (sym input) room) in
      (
        c2,
        error_and_read (callbacks kernel env (readv ∷ answers) answer) revents c c1 c2 err inp out
            (handle_error kernel env) refl (ground (arith, closed, v.in_thread))
            (λ c. handle_read kernel env (readv ∷ answers) c >>= λ r. ok (settled kernel env r))
            refl (ap (λ r. r >>= λ r. ok (settled kernel env r)) read),
        said_again
            ∙ told_twice c.calls (marked kernel env on_close c) c1.calls (c.has close_callback) h
                said,
      )
