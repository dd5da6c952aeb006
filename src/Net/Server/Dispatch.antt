-- ===== src/Net/Server/Dispatch.antt =====
-- net/server.cpp: the constructor, start(), and the worker that newConnection gives a connection to. `L`
-- stands for a pointer to a loop, and `posted` holds the tasks that went to the loops, in order.
use my_net_core_proxy.Prelude.{
  ℕ, suc, ◌+◌, ◌%◌, ◌≡◌, refl, sym, ◌∙◌, ap, Bool, true, false, not, if◌then◌else◌, some, List, [],
  ◌∷◌, ◌++◌, append_assoc, append-nil, length, get_elem?, Result, ok, ◌>>=◌, arith,
}
use my_net_core_proxy.Net.EventLoop.{Epoll, EventLoop}
use my_net_core_proxy.Net.InetAddress.{InetAddress}
use my_net_core_proxy.Net.Acceptor
use my_net_core_proxy.Net.Acceptor.{Acceptor, Fd, set_new_connect_callback, listen}
use my_net_core_proxy.Net.ThreadPool
use my_net_core_proxy.Net.ThreadPool.{
  ThreadPool, start_loops, get_next_loop, get_next_loop_lem, length-start_loops,
  start_loops-get_elem?,
}
use native.Mathlib.Nat.{mod-lt}

pub record Dispatcher (L St T : Type 0) : Type 0 where
  pub acceptor : Acceptor St T
  pub thread_pool : ThreadPool L
  pub started : Bool
  pub posted : List (L × ℕ)

-- The constructor, for what `open` and `socket` answer to the acceptor's.
unfoldable pub new :
    {L St T : Type 0} → L → EventLoop St T → InetAddress → Fd → Fd → Dispatcher L St T
new base loop listen_addr idle socket = record {
  acceptor = set_new_connect_callback true (Acceptor.new loop listen_addr idle socket);
  thread_pool = ThreadPool.new base 4;
  started = false;
  posted = [];
}

-- `start()`, for what the threads give and for whether `bind` and `listen` succeed.
unfoldable pub start :
    (kernel : Epoll) {L T : Type 0}
    → (ℕ → L)
    → Bool
    → Bool
    → Dispatcher L kernel.State T
    → Dispatcher L kernel.State T
start kernel start_loop bound listens s =
    if not s.started
    then record s {
      started = true;
      thread_pool = ThreadPool.start start_loop s.thread_pool;
      acceptor = listen kernel bound listens s.acceptor;
    }
    else s

module _ {L St T : Type 0} where
  -- `newConnection`, up to the task.
  unfoldable pub new_connection : ℕ → Dispatcher L St T → Result (Dispatcher L St T)
  new_connection sockfd s = do
    (worker_loop, pool') ← get_next_loop s.thread_pool
    ok (record s { thread_pool = pool'; posted = s.posted ++ (worker_loop, sockfd) ∷ [] })

  -- The calls of it for the connections that the acceptor hands on, in order.
  unfoldable pub new_connections : List ℕ → Dispatcher L St T → Result (Dispatcher L St T)
  unfolding new_connection
  new_connections [] s = ok s
  new_connections (sockfd ∷ fds) s = do s' ← new_connection sockfd s; new_connections fds s'

-- The `i`-th connection and those after it, each with the loop whose turn it is among `n`.
abbrev pub in_turn : {L : Type 0} → (ℕ → L) → ℕ → ℕ → List ℕ → List (L × ℕ)
in_turn f n i [] = []
in_turn f n i (fd ∷ fds) = (f (i % n), fd) ∷ in_turn f n (suc i) fds

module _ {L St T : Type 0} where
  new_connections_lem :
      (f : ℕ → L) (i : ℕ) (fds : List ℕ) (s : Dispatcher L St T)
      → s.thread_pool.num_threads ≡ 4
      → s.thread_pool.loops ≡ start_loops f 0 4
      → s.thread_pool.next % 4 ≡ i % 4
      → (s' : Dispatcher L St T) × (new_connections fds s ≡ ok s')
        × (s'.posted ≡ s.posted ++ in_turn f 4 i fds)
  unfolding new_connections
  new_connections_lem f i [] s four loops turn = (s, refl, sym (append-nil s.posted))
  new_connections_lem f i (fd ∷ fds) s four loops turn =
      let p = s.thread_pool in
      let len : length p.loops ≡ 4 = ap length loops ∙ length-start_loops f 0 4 in
      let (l, at, given) =
        get_next_loop_lem p (omega (arith, four)) (omega (arith, len)) (omega (arith, len)) in
      let same : l ≡ f (i % 4) =
        let found : some l ≡ some (f (i % 4)) =
          sym at
          ∙ ap (get_elem? p.loops) (ap (λ k. p.next % k) len ∙ turn)
          ∙ ap (λ k. get_elem? k (i % 4)) loops
          ∙ start_loops-get_elem? f 0 4 (i % 4) (mod-lt i (omega arith))
          ∙ ap (λ k. some (f k)) (omega arith) in
        cc in
      let s1 : Dispatcher L St T = record s {
        thread_pool = record p { next = p.next % length p.loops + 1 };
        posted = s.posted ++ (l, fd) ∷ [];
      } in
      let (s2, rest, posted) =
        new_connections_lem f (suc i) fds s1 four loops
          (omega (arith, ap (λ k. p.next % k) len, turn)) in
      (
        s2,
        ground (arith, given, rest),
        posted
            ∙ append_assoc s.posted ((l, fd) ∷ []) (in_turn f 4 (suc i) fds)
            ∙ ap (λ k. s.posted ++ (k, fd) ∷ in_turn f 4 (suc i) fds) same,
      )

-- On a server started twice, whatever socket, bind and listen answer, newConnection succeeds for
-- any sequence of connections, and the i-th of them goes to the loop of thread i modulo 4.
pub new_connections-start :
    (kernel : Epoll) {L T : Type 0} (f : ℕ → L) (base : L) (loop : EventLoop kernel.State T)
    (listen_addr : InetAddress) (idle socket : Fd) (bound listens : Bool) (fds : List ℕ)
    → (s : Dispatcher L kernel.State T) × (new_connections fds (
          start kernel f bound listens
            (start kernel f bound listens (new base loop listen_addr idle socket)))
        ≡ ok s)
      × (s.posted ≡ in_turn f 4 0 fds)
unfolding start new ThreadPool.start
new_connections-start kernel f base loop listen_addr idle socket bound listens fds =
    new_connections_lem f 0 fds
      (start kernel f bound listens (new base loop listen_addr idle socket)) refl refl refl
