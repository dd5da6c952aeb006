-- ===== src/Demos/StaticProxy.antt =====
-- demos/static_proxy_server.cpp: main() up to the call of loop(), for a loop that its constructor has made.
pub mod Choosing
mod Tests
use my_net_core_proxy.Prelude.{ℕ, Bool, true, List, [], ◌∷◌, Result, ok, ◌>>=◌}
use my_net_core_proxy.Prelude.Keys.{Key}
use my_net_core_proxy.Net.Acceptor.{Fd}
use my_net_core_proxy.Net.EventLoop.{Epoll}
use my_net_core_proxy.Net.EventLoop.Creation.{OwnLoop}
use my_net_core_proxy.Net.EventLoop.Timing.{Moment}
use my_net_core_proxy.Net.InetAddress
use my_net_core_proxy.Net.InetAddress.{InetAddress, InetText}
use my_net_core_proxy.Net.InetAddress.Order.{address_key}
use my_net_core_proxy.Net.Server.{Server}
use my_net_core_proxy.Net.Server.Callbacks.{unset, set_handler_factory}
use my_net_core_proxy.Net.Server.Dispatch
use my_net_core_proxy.Net.Server.Dispatch.{Dispatcher}
use my_net_core_proxy.Net.Timer.{TimerId}
use my_net_core_proxy.Net.TimerQueue.{TimerQueue}
use my_net_core_proxy.Net.Timestamp.{Seconds}
use my_net_core_proxy.App.LoadBalancer
use my_net_core_proxy.App.LoadBalancer.{LoadBalancer, add_backend}
use my_net_core_proxy.App.HealthChecker
use my_net_core_proxy.App.HealthChecker.{Check}

-- What main() has made when it calls loop().
pub record Gateway (L St T : Type 0) : Type 0 where
  pub load_balancer : LoadBalancer InetAddress
  pub check_timer : TimerId
  pub timer_queue : TimerQueue (Check InetAddress)
  pub dispatcher : Dispatcher L St T
  pub server : Server St

-- "127.0.0.1" and "0.0.0.0"
abbrev pub localhost : List ℕ
localhost = b'1' ∷ b'2' ∷ b'7' ∷ b'.' ∷ b'0' ∷ b'.' ∷ b'0' ∷ b'.' ∷ b'1' ∷ []

abbrev pub any_address : List ℕ
any_address = b'0' ∷ b'.' ∷ b'0' ∷ b'.' ∷ b'0' ∷ b'.' ∷ b'0' ∷ []

-- `3.0`
abbrev pub interval : Seconds
interval = record { is_positive = true; micro_seconds = 3000000 }

module _ (text : InetText) where
  -- The key of the containers of addresses.
  instance abbrev key : Key InetAddress
  key = address_key text

  abbrev pub local_backend : ℕ → InetAddress
  local_backend port = InetAddress.new text localhost port

  unfoldable pub backends : LoadBalancer InetAddress
  backends =
      add_backend
        (add_backend (add_backend LoadBalancer.new (local_backend 8001)) (local_backend 8002))
        (local_backend 8003)

  -- For what the threads, the socket calls, `bind` and `listen` give.
  unfoldable pub set_up :
      (kernel : Epoll) {L T : Type 0}
      → (ℕ → L)
      → L
      → Fd
      → Fd
      → Bool
      → Bool
      → Moment
      → OwnLoop kernel.State T (Check InetAddress)
      → Result (Gateway L kernel.State T)
  unfolding backends set_handler_factory HealthChecker.start Dispatch.new Dispatch.start
  set_up kernel start_loop base idle socket bound listens m made = do
    (check_timer, queue') ← HealthChecker.start m interval made.timer_queue
    let listen_addr = InetAddress.new text any_address 8080
    ok (record {
      load_balancer = backends;
      check_timer = check_timer;
      timer_queue = queue';
      dispatcher =
          Dispatch.start kernel start_loop bound listens
            (Dispatch.new base made.loop listen_addr idle socket);
      server = set_handler_factory true unset;
    })
