-- ===== src/Net/TcpConnection/Pausing.antt =====
-- net/tcp_connection.cpp: stopRead and startRead, which the flow control of the handlers uses.
use my_net_core_proxy.Prelude.{◌≡◌, ◌∙◌, ap, some, true, false, ok, arith}
use my_net_core_proxy.Net.Channel.{is_reading, is_writing, add_reading, drop_reading}
use my_net_core_proxy.Net.Channel.Masks.{IsMask, interests-add_reading, interests-drop_reading}
use my_net_core_proxy.Net.EventLoop.{Epoll, runs_now}
use my_net_core_proxy.Net.EventLoop.Registration.{update_channel_lem}
use my_net_core_proxy.Net.EventLoop.Watch.{update, enable_reading, disable_reading}
use my_net_core_proxy.Net.TcpConnection.{
  TcpConnection, Environment, connected, with_watch, run_in_loop, start_read, start_read_task,
  stop_read, stop_read_task,
}

module _ (kernel : Epoll) (env : Environment kernel.State) where
  -- A connected connection in its loop, outside the queue of tasks.
  pub record Running (c : TcpConnection kernel.State) : Type 0 where
    pub up : c.state ≡ connected
    pub now : runs_now c.watch.loop ≡ true
    pub mask : IsMask c.watch.channel.events

  abbrev paused : TcpConnection kernel.State → TcpConnection kernel.State
  paused c = record c { watch = disable_reading kernel c.watch }

  stop_read_lem :
      (c : TcpConnection kernel.State)
      → Running c
      → is_reading c.watch.channel ≡ true
      → stop_read kernel env c ≡ ok (paused c)
  unfolding stop_read stop_read_task with_watch run_in_loop
  stop_read_lem c r h = ground (arith, r.now, r.up, h)

  start_read_lem :
      (c : TcpConnection kernel.State)
      → Running c
      → is_reading c.watch.channel ≡ false
      → start_read kernel env c ≡ ok (record c { watch = enable_reading kernel c.watch })
  unfolding start_read start_read_task with_watch run_in_loop
  start_read_lem c r h = ground (arith, r.now, r.up, h)

  -- On a connected connection in its loop, outside the queue of tasks, with a mask of reading,
  -- writing, both or neither that reads: stopRead ends the reading, startRead after it takes it
  -- up again, the channel writes exactly if it did before, and epoll watches it for its mask.
  pub start_read-stop_read :
      (c : TcpConnection kernel.State)
      → Running c
      → is_reading c.watch.channel ≡ true
      → (c1 : TcpConnection kernel.State) × (c2 : TcpConnection kernel.State) × (stop_read kernel
            env c
          ≡ ok c1)
        × (is_reading c1.watch.channel ≡ false)
        × (start_read kernel env c1 ≡ ok c2)
        × (is_reading c2.watch.channel ≡ true)
        × (is_writing c2.watch.channel ≡ is_writing c.watch.channel)
        × (kernel.interest c2.watch.loop.epoll c2.watch.channel.fd ≡ some c2.watch.channel.events)
  unfolding disable_reading enable_reading update runs_now
  start_read-stop_read c r h =
      let (mask1, off, write1) = interests-drop_reading c.watch.channel r.mask in
      let c1 : TcpConnection kernel.State = paused c in
      let same : c1.watch.loop ≡ record c.watch.loop { epoll = c1.watch.loop.epoll } =
        (update_channel_lem kernel c.watch.loop (drop_reading c.watch.channel)).2 in
      let r1 : Running c1 = record { up = r.up; now = ap runs_now same ∙ r.now; mask = mask1 } in
      let (mask2, on, write2) = interests-add_reading c1.watch.channel mask1 in
      (
        c1,
        record c1 { watch = enable_reading kernel c1.watch },
        stop_read_lem c r h,
        off,
        start_read_lem c1 r1 off,
        on,
        write2 ∙ write1,
        (update_channel_lem kernel c1.watch.loop (add_reading c1.watch.channel)).0,
      )
