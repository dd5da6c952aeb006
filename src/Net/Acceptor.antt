-- ===== src/Net/Acceptor.antt =====
-- net/acceptor.h and net/acceptor.cpp: the listening socket and the spare descriptor. What the kernel
-- answers comes as arguments; `closed` holds the descriptors that were closed and `handed` those that
-- the callback of the server got.
pub mod Descriptors
mod Tests
use my_net_core_proxy.Prelude.{
  ℕ, ◌-◌, ◌^◌, Bool, true, false, ◌||◌, ◌==◌, if◌then◌else◌, Option, none, some, List, [], ◌∷◌,
  ◌++◌, Result, ok, ◌>>=◌,
}
use my_net_core_proxy.Net.Channel
use my_net_core_proxy.Net.EventLoop.{Epoll, EventLoop}
use my_net_core_proxy.Net.EventLoop.Watch.{Watch, enable_reading, remove}
use my_net_core_proxy.Net.InetAddress.{InetAddress}
use my_net_core_proxy.Net.TcpConnection.{eagain}

-- `EMFILE` and `ENFILE`.
abbrev pub emfile : ℕ
emfile = 24

abbrev pub enfile : ℕ
enfile = 23

-- A descriptor, or nothing for `-1`.
abbrev pub Fd : Type 0
Fd = Option ℕ

-- The number that the channel of a socket has that could not be made: `-1` in 32 bits.
abbrev pub no_fd : ℕ
no_fd = 2 ^ 32 - 1

pub record Acceptor (St T : Type 0) : Type 0 where
  pub listen_addr : InetAddress
  pub listen_socket_fd : Fd
  pub idle_fd : Fd
  pub listen_channel : Watch St T
  pub has_new_connection_callback : Bool
  pub listening : Bool
  pub handed : List (ℕ × InetAddress)
  pub closed : List ℕ

-- What `accept4` answers: a descriptor and the address of the peer, or its `errno`.
pub data Accepted : Type 0 where
  accepted : ℕ → InetAddress → Accepted
  failed : ℕ → Accepted

-- The answers for one round of the loop: those of `accept` and `open` where it gets there.
pub record Round : Type 0 where
  pub accept4 : Accepted
  pub accept : Fd
  pub open_null : Fd

-- How a run over the answers ended: by leaving the loop, or still in it.
pub data Accepting (A : Type 0) : Type 0 where
  left : A → Accepting A
  looping : A → Accepting A

module _ {St T : Type 0} where
  -- The constructor, for what `open` and `socket` answer.
  unfoldable pub new : EventLoop St T → InetAddress → Fd → Fd → Acceptor St T
  new loop listen_addr idle socket = record {
    listen_addr = listen_addr;
    listen_socket_fd = socket;
    idle_fd = idle;
    listen_channel = record {
      channel = Channel.new (elim socket [ none ↦ no_fd | some fd ↦ fd ]);
      loop = loop;
    };
    has_new_connection_callback = false;
    listening = false;
    handed = [];
    closed = [];
  }

  pub set_new_connect_callback : Bool → Acceptor St T → Acceptor St T
  set_new_connect_callback is_set a = record a { has_new_connection_callback = is_set }

  -- `::close(fd)`, which does nothing for `-1`.
  unfoldable pub close : Fd → Acceptor St T → Acceptor St T
  close none a = a
  close (some fd) a = record a { closed = a.closed ++ fd ∷ [] }

  -- A connection that was accepted.
  unfoldable pub hand_on : ℕ → InetAddress → Acceptor St T → Acceptor St T
  unfolding close
  hand_on conn_fd peer_addr a =
      if a.has_new_connection_callback
      then record a { handed = a.handed ++ (conn_fd, peer_addr) ∷ [] }
      else close (some conn_fd) a

  -- No descriptor is free: the spare one makes room for the connection that is turned away.
  unfoldable pub turn_away : Fd → Fd → Acceptor St T → Acceptor St T
  unfolding close
  turn_away accept open_null a = record (close accept (close a.idle_fd a)) { idle_fd = open_null }

  unfoldable pub handle_read : List Round → Acceptor St T → Accepting (Acceptor St T)
  unfolding hand_on turn_away
  handle_read [] a = looping a
  handle_read (round ∷ rounds) a = elim round.accept4 [
    | accepted conn_fd peer_addr ↦ handle_read rounds (hand_on conn_fd peer_addr a)
    | failed errno ↦
        let again = handle_read rounds (turn_away round.accept round.open_null a) in
        if errno == eagain
        then left a
        else if errno == emfile || errno == enfile
        then again
        else left a
  ]

module _ (kernel : Epoll) {T : Type 0} where
  -- `listen()`, for whether `bind` and `listen` succeed.
  unfoldable pub listen : Bool → Bool → Acceptor kernel.State T → Acceptor kernel.State T
  listen bound listens a =
      if bound
      then (if listens
          then record a {
            listen_channel = enable_reading kernel a.listen_channel;
            listening = true;
          }
          else a)
      else a

  -- The destructor.
  unfoldable pub destroy : Acceptor kernel.State T → Result (Acceptor kernel.State T)
  unfolding close
  destroy a = do
    w ← remove kernel a.listen_channel
    ok (close a.idle_fd (close a.listen_socket_fd (record a { listen_channel = w })))
