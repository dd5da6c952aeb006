-- ===== src/Net/EventLoop/Creation.antt =====
-- net/event_loop.cpp and net/timer_queue.cpp: the constructors of a loop and of its timer queue, with their
-- channels, for what epoll_create1, timerfd_create and eventfd answer.
use my_net_core_proxy.Prelude.{
  ℕ, ◌≡◌, ◌≢◌, refl, sym, ◌∙◌, Bool, true, false, Option, none, some, List, [], ◌∷◌, ◌++◌,
}
use my_net_core_proxy.Net.Channel
use my_net_core_proxy.Net.Channel.{Channel, add_reading}
use my_net_core_proxy.Net.EventLoop.{Epoll, EventLoop, update_channel}
use my_net_core_proxy.Net.EventLoop.Registration.{update_channel_lem}
use my_net_core_proxy.Net.EventLoop.Watch.{Watch, enable_reading, update}
use my_net_core_proxy.Net.TimerQueue
use my_net_core_proxy.Net.TimerQueue.{TimerQueue}

-- A loop with the two channels that it makes for itself, and its timer queue.
pub record OwnLoop (St T F : Type 0) : Type 0 where
  pub loop : EventLoop St T
  pub timer_queue : TimerQueue F
  pub timerfd_channel : Channel
  pub wakeup_channel : Channel

-- `if (fd >= 0) ::close(fd);`
unfoldable pub close_open : Option ℕ → List ℕ → List ℕ
close_open none closed = closed
close_open (some fd) closed = closed ++ fd ∷ []

-- The body of the destructor, for the two descriptors of the loop, by what it closes.
unfoldable pub destroy : Option ℕ → Option ℕ → List ℕ → List ℕ
unfolding close_open
destroy epoll_fd wakeup_fd closed = close_open wakeup_fd (close_open epoll_fd closed)

module _ (kernel : Epoll) {T : Type 0} where
  open kernel use {State, interest}

  -- The channel that the constructor of the timer queue makes.
  unfoldable pub watch_timerfd : ℕ → EventLoop State T → Watch State T
  unfolding enable_reading
  watch_timerfd timerfd loop =
      enable_reading kernel (record { channel = Channel.new timerfd; loop = loop })

  -- The channel for `wakeup()`.
  unfoldable pub watch_wakeup : ℕ → EventLoop State T → Watch State T
  unfolding enable_reading
  watch_wakeup wakeup_fd loop =
      enable_reading kernel (record { channel = Channel.new wakeup_fd; loop = loop })

  -- The loop before its channels, for a new epoll instance; the flag of the running queue has no
  -- initial value in the code.
  abbrev pub bare : State → Bool → EventLoop State T
  bare epoll calling = record {
    epoll = epoll;
    looping = false;
    quitting = false;
    in_loop_thread = true;
    calling_pending_functors = calling;
    pending_functors = [];
    wakeups = 0;
  }

  -- The constructor, or nothing where it aborts.
  unfoldable pub create :
      {F : Type 0} → Option State → ℕ → Option ℕ → Bool → Option (OwnLoop State T F)
  unfolding watch_timerfd watch_wakeup
  create none timerfd wakeup_fd calling = none
  create (some epoll) timerfd none calling = none
  create (some epoll) timerfd (some wakeup_fd) calling =
      let timer = watch_timerfd timerfd (bare epoll calling) in
      let own = watch_wakeup wakeup_fd timer.loop in
      some (record {
        loop = own.loop;
        timer_queue = TimerQueue.empty;
        timerfd_channel = timer.channel;
        wakeup_channel = own.channel;
      })

  -- For an epoll instance and two different descriptors, the constructor of a loop succeeds,
  -- epoll watches the timer descriptor and the wakeup descriptor for EPOLLIN and nothing else,
  -- and every other descriptor is watched as before.
  pub interest-create :
      {F : Type 0} (epoll : State) (timerfd wakeup_fd : ℕ) (calling : Bool)
      → timerfd ≢ wakeup_fd
      → (made : OwnLoop State T F) × (create (some epoll) timerfd (some wakeup_fd) calling
          ≡ some made)
        × (interest made.loop.epoll timerfd ≡ some 1)
        × (interest made.loop.epoll wakeup_fd ≡ some 1)
        × ((other : ℕ)
            → timerfd ≢ other
            → wakeup_fd ≢ other
            → interest made.loop.epoll other ≡ interest epoll other)
  unfolding create watch_timerfd watch_wakeup enable_reading update add_reading
  interest-create epoll timerfd wakeup_fd calling apart =
      let c1 : Channel = add_reading (Channel.new timerfd) in
      let c2 : Channel = add_reading (Channel.new wakeup_fd) in
      let l0 : EventLoop State T = bare epoll calling in
      let (here1, others1, _) = update_channel_lem kernel l0 c1 in
      let (here2, others2, _) = update_channel_lem kernel (update_channel kernel l0 c1) c2 in
      (
        record {
          loop = update_channel kernel (update_channel kernel l0 c1) c2;
          timer_queue = TimerQueue.empty;
          timerfd_channel = c1;
          wakeup_channel = c2;
        },
        refl,
        others2 timerfd (λ e. apart (sym e)) ∙ here1,
        here2,
        λ other n m. others2 other m ∙ others1 other n,
      )
