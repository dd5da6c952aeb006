-- ===== src/Net/Server/Lookup.antt =====
-- net/server.cpp: findConnectionByFd and the map that newConnection and removeConnection keep.
use my_net_core_proxy.Prelude.{
  ℕ, ◌≡◌, ◌≢◌, refl, sym, ◌∙◌, ap, true, false, ◌==◌, Bool-cases, inl, inr, none, some, List, [],
  ◌∷◌, ◌++◌, ◌*◌, ◌⊎◌, ok, fault, assertion, arith,
}
use my_net_core_proxy.Net.Buffer.{initial_size}
use my_net_core_proxy.Net.Buffer.Storage.{new-IsValid}
use my_net_core_proxy.Net.Channel
use my_net_core_proxy.Net.Channel.{add_reading}
use my_net_core_proxy.Net.EventLoop.{Epoll, EventLoop}
use my_net_core_proxy.Net.EventLoop.Watch.{enable_reading, update}
use my_net_core_proxy.Net.InetAddress.{string_eq}
use my_net_core_proxy.Net.InetAddress.Order.{string_eq_sound, string_eq_complete}
use my_net_core_proxy.Net.Server.{
  Server, conn_name, conn_name-injective, entry, erased, entry-erased, entry-erased_other, count,
  put, put-put, release_entry, prepared, add_connection, erase_connection, find_by_fd,
}
use my_net_core_proxy.Net.TcpConnection.{
  TcpConnection, Environment, Hook, Task, connected, connecting, is_dis_connected,
  connection_callback, on_connection, connect_established, call_if_set, invoke, with_watch,
}
use my_net_core_proxy.Net.TcpConnection.Setup
use my_net_core_proxy.Net.TcpConnection.Setup.{set_callback, set_handler, same_hook}

same_name : (n m : ℕ) → string_eq (conn_name n) (conn_name m) ≡ (n == m)
same_name n m = elim (Bool-cases (n == m)) [
  | inl e ↦
      let same : n ≡ m = ground (arith, e) in
      ground (arith, e, string_eq_complete (conn_name n) (conn_name m) (ap conn_name same))
  | inr e ↦ elim (Bool-cases (string_eq (conn_name n) (conn_name m))) [
    | inl f ↦
        let same : n ≡ m =
          conn_name-injective n m (string_eq_sound (conn_name n) (conn_name m) f) in
        ground (arith, e, same)
    | inr f ↦ ground (arith, e, f)
  ]
]

module _ {St : Type 0} where
  -- Each connection stands under the name of its descriptor.
  abbrev pub Named : List (List ℕ × TcpConnection St) → Type 0
  Named [] = Unit {0}
  Named ((name, c) ∷ rest) = (name ≡ conn_name c.watch.channel.fd) × Named rest

  -- findConnectionByFd finds what stands under the name of the descriptor.
  find_by_fd-entry :
      (m : List (List ℕ × TcpConnection St)) (fd : ℕ)
      → Named m
      → find_by_fd m fd ≡ entry m (conn_name fd)
  unfolding find_by_fd entry
  find_by_fd-entry [] fd v = refl
  find_by_fd-entry ((name, c) ∷ rest) fd v =
      let named : string_eq name (conn_name fd) ≡ (c.watch.channel.fd == fd) =
        ap (λ k. string_eq k (conn_name fd)) v.0 ∙ same_name c.watch.channel.fd fd in
      elim (Bool-cases (c.watch.channel.fd == fd)) [
        | inl e ↦ ground (arith, named, e)
        | inr e ↦ ground (arith, named, e, find_by_fd-entry rest fd v.1)
      ]

  erased-Named :
      (m : List (List ℕ × TcpConnection St)) (name : List ℕ) → Named m → Named (erased m name)
  unfolding erased
  erased-Named [] name v = tt
  erased-Named ((k, c) ∷ rest) name v = elim (Bool-cases (string_eq k name)) [
    | inl e ↦ rw e (erased-Named rest name v.1)
    | inr e ↦ rw e (v.0, erased-Named rest name v.1)
  ]

  -- For a map whose connections stand under the names of their descriptors, and a connection that
  -- findConnectionByFd finds: if it is disconnected, the task of removeConnection for it passes
  -- its assertions, keeps the names right, and then findConnectionByFd does not find it and finds
  -- for every other descriptor what it found before; if it is not, the task fails the assertion
  -- of the connection's destructor.
  pub find_by_fd-erase_connection :
      (fd : ℕ) (s : Server St) (c : TcpConnection St)
      → Named s.connections
      → find_by_fd s.connections fd ≡ some c
      → ((is_dis_connected c.state ≡ true)
          × ((s' : Server St) × (erase_connection (conn_name fd) s ≡ ok s')
              × Named s'.connections
              × (find_by_fd s'.connections fd ≡ none)
              × ((other : ℕ)
                  → fd ≢ other
                  → find_by_fd s'.connections other ≡ find_by_fd s.connections other)))
        ⊎ ((is_dis_connected c.state ≡ false)
            × (erase_connection (conn_name fd) s ≡ fault assertion))
  unfolding erase_connection count release_entry
  find_by_fd-erase_connection fd s c v found =
      let there : entry s.connections (conn_name fd) ≡ some c =
        sym (find_by_fd-entry s.connections fd v) ∙ found in
      let m : List (List ℕ × TcpConnection St) = erased s.connections (conn_name fd) in
      let v' : Named m = erased-Named s.connections (conn_name fd) v in
      elim (Bool-cases (is_dis_connected c.state)) [
        | inr up ↦ inr (up, ground (arith, there, up))
        | inl down ↦ inl (
          down,
          (
            record s { connections = m },
            ground (arith, there, down),
            v',
            find_by_fd-entry m fd v' ∙ entry-erased s.connections (conn_name fd),
            λ other apart.
                find_by_fd-entry m other v'
                ∙ entry-erased_other s.connections (conn_name fd) (conn_name other)
                    (λ same. apart (conn_name-injective fd other same))
                ∙ sym (find_by_fd-entry s.connections other v),
          ),
        )
      ]

module _ (kernel : Epoll) (env : Environment kernel.State) where
  -- A callback that succeeds and leaves the descriptor of the connection as it is.
  abbrev pub KeepsFd : Hook → Type 0
  KeepsFd h =
      (c : TcpConnection kernel.State)
      → (c' : TcpConnection kernel.State) × (env.on h c ≡ ok c')
        × (c'.watch.channel.fd ≡ c.watch.channel.fd)

  call_if_set_fd :
      (h : Hook) (c : TcpConnection kernel.State)
      → KeepsFd h
      → (c' : TcpConnection kernel.State) × (call_if_set kernel env h c ≡ ok c')
        × (c'.watch.channel.fd ≡ c.watch.channel.fd)
  unfolding call_if_set invoke
  call_if_set_fd h c k = elim (Bool-cases (c.has h)) [
    | inl e ↦
        let (c', done, same) = k (record c { calls = c.calls ++ h ∷ [] }) in
        (c', ground (arith, e, done), same)
    | inr e ↦ (c, ground (arith, e), refl)
  ]

  prepared_watch :
      (s : Server kernel.State) (c : TcpConnection kernel.State)
      → (prepared kernel env s c).watch ≡ c.watch
  unfolding prepared set_callback set_handler
  prepared_watch s c = ground arith

  connect_established_fd :
      (c : TcpConnection kernel.State)
      → c.watch.loop.in_loop_thread ≡ true
      → KeepsFd connection_callback
      → KeepsFd on_connection
      → (c' : TcpConnection kernel.State) × (connect_established kernel env c ≡ ok c')
        × (c'.watch.channel.fd ≡ c.watch.channel.fd)
  unfolding connect_established with_watch enable_reading update add_reading
  connect_established_fd c here k1 k2 =
      let c1 : TcpConnection kernel.State = record c {
        state = connected;
        watch = enable_reading kernel c.watch;
      } in
      let (c2, e2, f2) = call_if_set_fd connection_callback c1 k1 in
      let (c3, e3, f3) = call_if_set_fd on_connection c2 k2 in
      (c3, ground (arith, here, e2, e3), f3 ∙ f2)

  -- In the thread of the loop, with callbacks that succeed and leave the descriptor alone, and a
  -- map whose connections stand under the names of their descriptors: the task of newConnection
  -- for a descriptor that findConnectionByFd does not find succeeds, keeps the names right, and
  -- then findConnectionByFd finds a connection for it and for every other descriptor what it
  -- found before.
  pub find_by_fd-add_connection :
      (loop : EventLoop kernel.State Task) (fd : ℕ) (s : Server kernel.State)
      → loop.in_loop_thread ≡ true
      → KeepsFd connection_callback
      → KeepsFd on_connection
      → Named s.connections
      → find_by_fd s.connections fd ≡ none
      → (s' : Server kernel.State) × (c : TcpConnection kernel.State) × (add_connection kernel env
            loop fd s
          ≡ ok s')
        × Named s'.connections
        × (find_by_fd s'.connections fd ≡ some c)
        × ((other : ℕ)
            → fd ≢ other
            → find_by_fd s'.connections other ≡ find_by_fd s.connections other)
  unfolding add_connection release_entry put Setup.new entry
  find_by_fd-add_connection loop fd s here k1 k2 v free =
      let (b, made, _, _, _, _) = new-IsValid initial_size (omega arith) in
      let c0 : TcpConnection kernel.State = record {
        state = connecting;
        watch = record { channel = Channel.new fd; loop = loop };
        input_buffer = b;
        output_buffer = b;
        has = λ h. false;
        high_water_mark = 64 * 1024 * 1024;
        calls = [];
        sent = [];
      } in
      let p : TcpConnection kernel.State = prepared kernel env s c0 in
      let same : p.watch ≡ c0.watch = prepared_watch s c0 in
      let (c, done, kept) =
        connect_established_fd p (ap (λ w. w.loop.in_loop_thread) same ∙ here) k1 k2 in
      let absent : entry s.connections (conn_name fd) ≡ none =
        sym (find_by_fd-entry s.connections fd v) ∙ free in
      let m : List (List ℕ × TcpConnection kernel.State) = put s.connections (conn_name fd) c in
      let v' : Named m = (
        ap conn_name (sym (kept ∙ ap (λ w. w.channel.fd) same)),
        erased-Named s.connections (conn_name fd) v,
      ) in
      (
        record s { connections = m },
        c,
        ground (arith, made, absent, done, put-put s.connections (conn_name fd) p c),
        v',
        find_by_fd-entry m fd v'
            ∙ ground (arith, string_eq_complete (conn_name fd) (conn_name fd) refl),
        λ other apart.
            find_by_fd-entry m other v'
            ∙ behind (conn_name fd) (conn_name other) c (erased s.connections (conn_name fd))
                (differs other apart)
            ∙ entry-erased_other s.connections (conn_name fd) (conn_name other)
                (λ e. apart (conn_name-injective fd other e))
            ∙ sym (find_by_fd-entry s.connections other v),
      )
    where
      behind :
          (k name : List ℕ) (c : TcpConnection kernel.State)
          (rest : List (List ℕ × TcpConnection kernel.State))
          → string_eq k name ≡ false
          → entry ((k, c) ∷ rest) name ≡ entry rest name
      behind k name c rest h = ground (arith, h)

      differs : (other : ℕ) → fd ≢ other → string_eq (conn_name fd) (conn_name other) ≡ false
      differs other apart = same_name fd other ∙ ground (arith, apart)
