-- ===== src/Net/TcpConnection/Closing.antt =====
-- net/tcp_connection.cpp: how a connection is shut down and closed.
use my_net_core_proxy.Prelude.{
  zero, suc, ◌≡◌, refl, ◌∙◌, ap, ◌⊎◌, ◌≢◌, true, if◌then◌else◌, List, [], ◌∷◌, ◌++◌, append_assoc,
  append-nil, ok, fault, assertion, arith,
}
use my_net_core_proxy.Net.Channel.{Channel, negsuc, is_none_event, set_index}
use my_net_core_proxy.Net.EventLoop.{Epoll, EventLoop, update_channel, remove_channel, is_minus_one}
use my_net_core_proxy.Net.EventLoop.Watch.{Watch, disable_all, remove}
use my_net_core_proxy.Net.EventLoop.Registration.{update_channel_lem}
use my_net_core_proxy.Net.TcpConnection.{
  TcpConnection, Environment, Hook, Task, connected, connecting, dis_connected, dis_connecting,
  close_callback, on_close, call_if_set, with_watch, leave, connect_destroyed, handle_close,
  destroy,
}
use my_net_core_proxy.Net.TcpConnection.Io.{
  SoError, so_error, getsockopt_failed, finish_connect, handle_write,
}

module _ (kernel : Epoll) (env : Environment kernel.State) where
  -- The connection's thread runs its loop, and the kernel has the channel unindexed as ever.
  pub record InLoop (c : TcpConnection kernel.State) : Type 0 where
    pub in_thread : c.watch.loop.in_loop_thread ≡ true
    pub no_index : c.watch.channel.index ≡ negsuc 0

  -- A callback that leaves this connection as it is, as those do that act on other objects.
  abbrev pub IsQuiet : Hook → Type 0
  IsQuiet h = (c : TcpConnection kernel.State) → env.on h c ≡ ok c

  connecting_close_asserts :
      (c : TcpConnection kernel.State)
      → InLoop c
      → c.state ≡ connecting
      → c.watch.channel.events ≡ 4
      → handle_close kernel env c ≡ fault assertion
  unfolding handle_close connect_destroyed leave remove is_none_event
  connecting_close_asserts c v s e = ground arith

  -- A connection whose connect is pending, with its mask at EPOLLOUT, in the thread of its loop
  -- and with an index of -1: if getsockopt fails or reports an error, handleWrite ends in a
  -- failed assertion.
  pub failed_connect_asserts :
      (c : TcpConnection kernel.State) (answer : SoError)
      → InLoop c
      → c.state ≡ connecting
      → c.watch.channel.events ≡ 4
      → answer ≢ so_error 0
      → handle_write kernel env answer c ≡ fault assertion
  unfolding handle_write finish_connect
  failed_connect_asserts c getsockopt_failed v s e h =
      ground (arith, connecting_close_asserts c v s e)
  failed_connect_asserts c (so_error zero) v s e h = absurd (h refl)
  failed_connect_asserts c (so_error (suc n)) v s e h =
      ground (arith, connecting_close_asserts c v s e)

  abbrev pub marked : Hook → TcpConnection kernel.State → List Hook
  marked h c = if c.has h then h ∷ [] else []

  pub call_if_set_quiet :
      (h : Hook) (c : TcpConnection kernel.State)
      → IsQuiet h
      → call_if_set kernel env h c ≡ ok (record c { calls = c.calls ++ marked h c })
  unfolding call_if_set
  call_if_set_quiet h c q =
      ground (arith, q (record c { calls = c.calls ++ h ∷ [] }), append-nil c.calls)

  remove_quiet :
      (w : Watch kernel.State Task)
      → w.channel.events ≡ 0
      → w.channel.index ≡ negsuc 0
      → w.loop.in_loop_thread ≡ true
      → remove kernel w ≡ ok w
  unfolding remove remove_channel is_none_event set_index is_minus_one
  remove_quiet w e i t = ground arith

  update_in_thread :
      (l : EventLoop kernel.State Task) (channel : Channel)
      → (update_channel kernel l channel).in_loop_thread ≡ l.in_loop_thread
  update_in_thread l channel = ap (λ k. k.in_loop_thread) (update_channel_lem kernel l channel).2

  -- What the connection looks like after `connectDestroyed`.
  abbrev destroyed : TcpConnection kernel.State → TcpConnection kernel.State
  destroyed c = record c {
    state = dis_connected;
    watch = disable_all kernel c.watch;
    calls =
        c.calls
        ++ ((if c.has on_close then on_close ∷ [] else [])
            ++ (if c.has close_callback then close_callback ∷ [] else []));
  }

  -- connectDestroyed on a connection that is connected or disconnecting, in the thread of its
  -- loop and with an index of -1, with quiet handler and close callback: it succeeds, the state
  -- becomes disconnected and the mask empty, onClose and then the close callback are called once
  -- each where they are set, the destructor's assertion then holds, and the loop's thread, the
  -- index, the callbacks and the input buffer are as before.
  pub connect_destroyed_lem :
      (c : TcpConnection kernel.State)
      → InLoop c
      → IsQuiet on_close
      → IsQuiet close_callback
      → (c.state ≡ connected) ⊎ (c.state ≡ dis_connecting)
      → (c' : TcpConnection kernel.State) × (connect_destroyed kernel env c ≡ ok c')
        × (c'.state ≡ dis_connected)
        × (c'.watch.channel.events ≡ 0)
        × (c'.calls
            ≡ c.calls
              ++ ((if c.has on_close then on_close ∷ [] else [])
                  ++ (if c.has close_callback then close_callback ∷ [] else [])))
        × (destroy kernel env c' ≡ ok tt)
        × InLoop c'
        × (c'.has ≡ c.has)
        × (c'.input_buffer ≡ c.input_buffer)
  unfolding connect_destroyed leave disable_all destroy with_watch
  connect_destroyed_lem c v qh qc s =
      let c1 : TcpConnection kernel.State = record c {
        state = dis_connected;
        watch = disable_all kernel c.watch;
      } in
      let c2 : TcpConnection kernel.State = record c1 { calls = c.calls ++ marked on_close c } in
      let thread : c1.watch.loop.in_loop_thread ≡ true =
        update_in_thread c.watch.loop c1.watch.channel ∙ v.in_thread in
      let gone : remove kernel c1.watch ≡ ok c1.watch =
        remove_quiet c1.watch refl v.no_index thread in
      (
        destroyed c,
        ground (
          arith,
          call_if_set_quiet on_close c1 qh,
          gone,
          call_if_set_quiet close_callback c2 qc,
          append_assoc c.calls (marked on_close c) (marked close_callback c),
        ),
        refl,
        refl,
        refl,
        refl,
        record { in_thread = thread; no_index = v.no_index },
        refl,
        refl,
      )

  -- Closing it once more calls the close callback again, and the handler not.
  pub connect_destroyed_again :
      (c : TcpConnection kernel.State)
      → InLoop c
      → IsQuiet close_callback
      → c.state ≡ dis_connected
      → c.watch.channel.events ≡ 0
      → c.has close_callback ≡ true
      → (c' : TcpConnection kernel.State) × (connect_destroyed kernel env c ≡ ok c')
        × (c'.calls ≡ c.calls ++ close_callback ∷ [])
  unfolding connect_destroyed leave with_watch
  connect_destroyed_again c v qc s e h = (
    record c { calls = c.calls ++ close_callback ∷ [] },
    ground (
      arith,
      remove_quiet c.watch e v.no_index v.in_thread,
      call_if_set_quiet close_callback c qc,
    ),
    refl,
  )
