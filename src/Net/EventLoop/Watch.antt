-- ===== src/Net/EventLoop/Watch.antt =====
-- net/channel.cpp: the methods of a channel that go through its loop.
use my_net_core_proxy.Prelude.{Result, ok, check, assertion, ◌>>=◌, ◌>>◌}
use my_net_core_proxy.Net.Channel.{
  Channel, add_reading, drop_reading, add_writing, drop_writing, drop_all, is_none_event,
}
use my_net_core_proxy.Net.EventLoop.{Epoll, EventLoop, update_channel, remove_channel}

-- A channel with the loop that owns it.
pub record Watch (State T : Type 0) : Type 0 where
  pub channel : Channel
  pub loop : EventLoop State T

module _ (kernel : Epoll) {T : Type 0} where
  open kernel use {State}

  -- `update()` after a change of the channel.
  unfoldable pub update : Watch State T → Channel → Watch State T
  update w channel' = record { channel = channel'; loop = update_channel kernel w.loop channel' }

  unfoldable pub enable_reading : Watch State T → Watch State T
  unfolding update add_reading
  enable_reading w = update w (add_reading w.channel)

  unfoldable pub disable_reading : Watch State T → Watch State T
  unfolding update drop_reading
  disable_reading w = update w (drop_reading w.channel)

  unfoldable pub enable_writing : Watch State T → Watch State T
  unfolding update add_writing
  enable_writing w = update w (add_writing w.channel)

  unfoldable pub disable_writing : Watch State T → Watch State T
  unfolding update drop_writing
  disable_writing w = update w (drop_writing w.channel)

  unfoldable pub disable_all : Watch State T → Watch State T
  unfolding update drop_all
  disable_all w = update w (drop_all w.channel)

  unfoldable pub remove : Watch State T → Result (Watch State T)
  unfolding is_none_event
  remove w = do
    check (is_none_event w.channel) assertion
    (loop', channel') ← remove_channel kernel w.loop w.channel
    ok (record { channel = channel'; loop = loop' })
