-- ===== src/App/HealthChecker.antt =====
-- app/health_checker.h and app/health_checker.cpp: the probes of the backends, over the loop, its timers
-- and the balancer. A timer operation is done at the call, as in the loop's thread.
pub mod Probes
pub mod Round
mod Tests
use my_net_core_proxy.Prelude.{
  ℕ, Bool, true, false, ◌==◌, if◌then◌else◌, Option, none, some, List, [], ◌∷◌, ◌++◌, Result, ok,
  ◌>>=◌,
}
use my_net_core_proxy.Prelude.Keys.{Key}
use my_net_core_proxy.Net.Channel
use my_net_core_proxy.Net.Channel.{Channel, is_writing}
use my_net_core_proxy.Net.EventLoop.{Epoll, EventLoop}
use my_net_core_proxy.Net.EventLoop.Timing.{Timers, Moment, run_every}
use my_net_core_proxy.Net.EventLoop.Watch.{Watch, enable_writing, disable_all, remove}
use my_net_core_proxy.Net.TcpConnection.{Task}
use my_net_core_proxy.Net.TcpConnection.Io.{SoError, getsockopt_failed, so_error}
use my_net_core_proxy.Net.Timer.{TimerId}
use my_net_core_proxy.Net.TimerQueue.{TimerQueue}
use my_net_core_proxy.Net.Timestamp.{Seconds}
use my_net_core_proxy.App.LoadBalancer.{LoadBalancer, get_all_backends, update_health_status}

-- What a timer of the checker calls.
pub data Check (A : Type 0) : Type 0 where
  checks_backends : Check A
  times_out : A → ℕ → Check A

-- What `socket` and `connect` answer: no socket, or one that is connected at once, whose connection is
-- in progress, or that failed.
pub data Dial : Type 0 where
  no_socket : Dial
  at_once in_progress refused : ℕ → Dial

-- A probe that waits, by what its two callbacks hold.
pub record Probe (A : Type 0) : Type 0 where
  pub channel : Channel
  pub addr : A
  pub sockfd : ℕ
  pub timer_id : TimerId

-- The checker with what it reaches; `closed` holds the descriptors that were closed.
pub record HealthChecker (A St Q : Type 0) : Type 0 where
  pub loop : EventLoop St Task
  pub load_balancer : LoadBalancer A
  pub queue : Q
  pub closed : List ℕ

-- `1.0`
abbrev pub probe_delay : Seconds
probe_delay = record { is_positive = true; micro_seconds = 1000000 }

-- What `getsockopt` says of the connection.
unfoldable pub succeeded : SoError → Bool
succeeded getsockopt_failed = false
succeeded (so_error error) = error == 0

module _ {A : Type 0} where
  -- `start(interval_seconds)`
  unfoldable pub start :
      Moment → Seconds → TimerQueue (Check A) → Result (TimerId × TimerQueue (Check A))
  unfolding run_every
  start m interval_seconds q = run_every m interval_seconds checks_backends q

module _ (kernel : Epoll) {A : Type 0} ⦃k : Key A⦄ (timers : Timers (Check A)) where
  abbrev pub Checker : Type 0
  Checker = HealthChecker A kernel.State timers.Queue

  unfoldable pub report : A → Bool → Checker → Checker
  report addr healthy h = record h {
    load_balancer = update_health_status h.load_balancer addr healthy;
  }

  -- `::close(sockfd)`
  unfoldable pub close : ℕ → Checker → Checker
  close sockfd h = record h { closed = h.closed ++ sockfd ∷ [] }

  -- `connect` is under way: the channel waits for it, and the timer for its end.
  unfoldable pub await : A → ℕ → Moment → Checker → Result (Probe A × Checker)
  await addr sockfd m h = do
    (id, q) ← timers.after m probe_delay (times_out addr sockfd) h.queue
    let w : Watch kernel.State Task = record { channel = Channel.new sockfd; loop = h.loop }
    let w' = enable_writing kernel w
    ok (
      record { channel = w'.channel; addr = addr; sockfd = sockfd; timer_id = id },
      record h { queue = q; loop = w'.loop },
    )

  -- A probe, and what waits after it.
  unfoldable pub probe : A → Dial → Moment → Checker → Result (Option (Probe A) × Checker)
  unfolding report close await
  probe addr no_socket m h = ok (none, h)
  probe addr (at_once sockfd) m h = ok (none, close sockfd (report addr true h))
  probe addr (in_progress sockfd) m h = do (p, h') ← await addr sockfd m h; ok (some p, h')
  probe addr (refused sockfd) m h = ok (none, close sockfd (report addr false h))

  -- `checkBackends`, with the answers and the moment for each backend.
  unfoldable pub probe_all :
      (A → Dial × Moment) → List A → Checker → Result (List (Probe A) × Checker)
  unfolding probe
  probe_all answers [] h = ok ([], h)
  probe_all answers (addr ∷ backends) h = do
    (waiting, h1) ← probe addr (answers addr).0 (answers addr).1 h
    (others, h2) ← probe_all answers backends h1
    ok (elim waiting [ none ↦ others | some p ↦ p ∷ others ], h2)

  unfoldable pub check_backends : (A → Dial × Moment) → Checker → Result (List (Probe A) × Checker)
  unfolding probe_all
  check_backends answers h = probe_all answers (get_all_backends h.load_balancer) h

  -- The channel is taken out of the loop and the socket closed.
  unfoldable pub finish : Probe A → Checker → Result (Probe A × Checker)
  unfolding close
  finish p h = do
    let w : Watch kernel.State Task = record { channel = p.channel; loop = h.loop }
    w' ← remove kernel (disable_all kernel w)
    ok (record p { channel = w'.channel }, close p.sockfd (record h { loop = w'.loop }))

  -- The callback of the timer.
  unfoldable pub time_out : Probe A → Checker → Result (Probe A × Checker)
  unfolding report finish
  time_out p h =
      let late = finish p (report p.addr false h) in
      if is_writing p.channel then late else ok (p, h)

  -- The write callback of the channel.
  unfoldable pub write_ready : SoError → Probe A → Checker → Result (Probe A × Checker)
  unfolding report finish succeeded
  write_ready answer p h = do
    q ← timers.stop p.timer_id h.queue
    finish p (report p.addr (succeeded answer) (record h { queue = q }))
