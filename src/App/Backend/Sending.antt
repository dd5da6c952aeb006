-- ===== src/App/Backend/Sending.antt =====
-- net/tcp_connection.cpp: what the handlers rely on where they send.
use my_net_core_proxy.Prelude.{
  ℕ, ◌+◌, ◌≤◌, ◌≡◌, ◌≢◌, ◌∙◌, ◌⊎◌, inl, inr, true, List, ◌++◌, length, ok, arith,
}
use my_net_core_proxy.Net.Buffer.{max_size}
use my_net_core_proxy.Net.Buffer.Valid.{IsValid}
use my_net_core_proxy.Net.EventLoop.{Epoll}
use my_net_core_proxy.Net.TcpConnection.{
  TcpConnection, Environment, connected, refused, eagain, write_complete_callback,
  high_water_mark_callback,
}
use my_net_core_proxy.Net.TcpConnection.Io.{send, send_in_loop}
use my_net_core_proxy.Net.TcpConnection.Closing.{IsQuiet}
use my_net_core_proxy.Net.TcpConnection.Kept.{stream, Takes}
use my_net_core_proxy.Net.TcpConnection.Stream.{stream-send_in_loop}

module _ (kernel : Epoll) (env : Environment kernel.State) where
  -- A connection in its loop's thread that takes `message`: connected, with room in its buffer.
  pub record Ready (message : List ℕ) (c : TcpConnection kernel.State) : Type 0 where
    pub up : c.state ≡ connected
    pub in_thread : c.watch.loop.in_loop_thread ≡ true
    pub valid : IsValid c.output_buffer
    pub room : c.output_buffer.writer_index + length message ≤ max_size

  -- A socket that takes no more than it is offered, under callbacks that leave the connection alone.
  pub record Plain : Type 0 where
    pub takes : Takes env.write
    pub quiet_complete : IsQuiet kernel env write_complete_callback
    pub quiet_mark : IsQuiet kernel env high_water_mark_callback

  -- The first `write` of the message fails for good.
  abbrev pub Refuses : List ℕ → Type 0
  Refuses message = (errno : ℕ) × (errno ≢ eagain) × (env.write 0 message ≡ refused errno)

  pub send_lem :
      (message : List ℕ) (c : TcpConnection kernel.State)
      → Plain
      → Ready message c
      → ((c' : TcpConnection kernel.State) × (send kernel env message c ≡ ok c')
          × (stream c' ≡ stream c ++ message))
        ⊎ Refuses message
  unfolding send
  send_lem message c p h =
      let direct : send kernel env message c ≡ send_in_loop kernel env message c =
        ground (arith, h.in_thread) in
      elim (stream-send_in_loop kernel env p.takes p.quiet_complete p.quiet_mark message c
        h.in_thread h.up h.valid h.room) [
          | inl (c', e, bytes, _) ↦ inl (c', direct ∙ e, bytes)
          | inr (errno, ne, _, w, _) ↦ inr (errno, ne, w)
        ]
