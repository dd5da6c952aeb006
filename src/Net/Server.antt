-- ===== src/Net/Server.antt =====
-- net/server.h and net/server.cpp: the map of the connections. The lock makes each use of the map one
-- step; which thread takes a step is up to the loops.
pub mod Dispatch
pub mod Callbacks
pub mod Lookup
mod Tests
use my_net_core_proxy.Prelude.{
  ℕ, ◌≡◌, ◌≢◌, refl, sym, ◌∙◌, ap, Bool, true, false, ◌||◌, ◌==◌, if◌then◌else◌, Option, none, some,
  List, [], ◌∷◌, drop, Result, ok, fault, check, assertion, ◌>>=◌, ◌>>◌, arith, Bool-cases, inl,
  inr,
}
use my_net_core_proxy.Prelude.Decimal.{to_string, to_string-injective}
use my_net_core_proxy.Net.EventLoop.{Epoll, EventLoop}
use my_net_core_proxy.Net.InetAddress.{string_eq}
use my_net_core_proxy.Net.InetAddress.Order.{string_eq_sound, string_eq_complete}
use my_net_core_proxy.Net.TcpConnection.{
  TcpConnection, Environment, Task, is_dis_connected, connection_callback, message_callback,
  write_complete_callback, close_callback, connect_established,
}
use my_net_core_proxy.Net.TcpConnection.Setup
use my_net_core_proxy.Net.TcpConnection.Setup.{set_callback, set_handler}

-- What the server's methods use: the map, and which of its callbacks are set.
pub record Server (St : Type 0) : Type 0 where
  pub connections : List (List ℕ × TcpConnection St)
  pub has_handler_factory : Bool
  pub has_connection_callback : Bool
  pub has_message_callback : Bool
  pub has_write_complete_callback : Bool

-- `"conn_" + std::to_string(sockfd)`
unfoldable pub conn_name : ℕ → List ℕ
conn_name fd = b'c' ∷ b'o' ∷ b'n' ∷ b'n' ∷ b'_' ∷ to_string fd

pub conn_name-injective : (n m : ℕ) → conn_name n ≡ conn_name m → n ≡ m
unfolding conn_name
conn_name-injective n m same = to_string-injective n m (ap (drop 5) same)

module _ {A : Type 0} where
  -- `connections_.find(name)`
  unfoldable pub entry : List (List ℕ × A) → List ℕ → Option A
  entry [] name = none
  entry ((k, a) ∷ rest) name =
      let later = entry rest name in if string_eq k name then some a else later

  -- `connections_.erase(name)`
  unfoldable pub erased : List (List ℕ × A) → List ℕ → List (List ℕ × A)
  erased [] name = []
  erased ((k, a) ∷ rest) name =
      let later = erased rest name in if string_eq k name then later else (k, a) ∷ later

  -- How many entries that erases: a map has one for a name at most.
  unfoldable pub count : List (List ℕ × A) → List ℕ → ℕ
  unfolding entry
  count m name = elim (entry m name) [ none ↦ 0 | some a ↦ 1 ]

  -- `connections_[name] = a`
  unfoldable pub put : List (List ℕ × A) → List ℕ → A → List (List ℕ × A)
  unfolding erased
  put m name a = (name, a) ∷ erased m name

  pub entry-erased : (m : List (List ℕ × A)) (name : List ℕ) → entry (erased m name) name ≡ none
  unfolding entry erased
  entry-erased [] name = refl
  entry-erased ((k, a) ∷ rest) name = elim (Bool-cases (string_eq k name)) [
    | inl e ↦ ground (arith, e, entry-erased rest name)
    | inr e ↦ ground (arith, e, entry-erased rest name)
  ]

  pub erased-erased :
      (m : List (List ℕ × A)) (name : List ℕ) → erased (erased m name) name ≡ erased m name
  unfolding erased
  erased-erased [] name = refl
  erased-erased ((k, a) ∷ rest) name = elim (Bool-cases (string_eq k name)) [
    | inl e ↦ ground (arith, e, erased-erased rest name)
    | inr e ↦ ground (arith, e, erased-erased rest name)
  ]

  -- A value that stands in the map is replaced.
  pub put-put :
      (m : List (List ℕ × A)) (name : List ℕ) (a b : A) → put (put m name a) name b ≡ put m name b
  unfolding put erased
  put-put m name a b =
      let same : string_eq name name ≡ true = string_eq_complete name name refl in
      ground (arith, same, erased-erased m name)

  pub entry-erased_other :
      (m : List (List ℕ × A)) (name other : List ℕ)
      → name ≢ other
      → entry (erased m name) other ≡ entry m other
  unfolding entry erased
  entry-erased_other [] name other h = refl
  entry-erased_other ((k, a) ∷ rest) name other h = elim (Bool-cases (string_eq k name)) [
    | inl e ↦
        let differs : string_eq k other ≡ false = apart (string_eq k other) refl e in
        ground (arith, e, differs, entry-erased_other rest name other h)
    | inr e ↦ elim (Bool-cases (string_eq k other)) [
      | inl f ↦ ground (arith, e, f)
      | inr f ↦ ground (arith, e, f, entry-erased_other rest name other h)
    ]
  ]
    where
      apart : (b : Bool) → string_eq k other ≡ b → string_eq k name ≡ true → b ≡ false
      apart false e f = refl
      apart true e f = absurd (h (sym (string_eq_sound k name f) ∙ string_eq_sound k other e))

-- A connection that leaves the map, or is replaced in it, is destroyed: the map holds the last reference.
unfoldable pub release_entry :
    {St : Type 0} → List (List ℕ × TcpConnection St) → List ℕ → Result (Unit {0})
unfolding entry
release_entry m name = elim (entry m name) [
  | none ↦ ok tt
  | some c ↦ check (is_dis_connected c.state) assertion
]

module _ (kernel : Epoll) (env : Environment kernel.State) where
  -- The connection that the worker makes, before it is established.
  unfoldable pub prepared :
      Server kernel.State → TcpConnection kernel.State → TcpConnection kernel.State
  prepared s c = set_callback close_callback true (
      set_callback write_complete_callback s.has_write_complete_callback (
        set_callback message_callback s.has_message_callback (
          set_callback connection_callback s.has_connection_callback
            (if s.has_handler_factory then set_handler true c else c))))

  -- The task that `newConnection` gives to the worker's loop.
  unfoldable pub add_connection :
      EventLoop kernel.State Task → ℕ → Server kernel.State → Result (Server kernel.State)
  unfolding release_entry put prepared
  add_connection loop fd s = do
    made ← Setup.new loop fd
    release_entry s.connections (conn_name fd)
    let placed = put s.connections (conn_name fd) (prepared s made)
    c ← connect_established kernel env (prepared s made)
    ok (record s { connections = put placed (conn_name fd) c })

module _ {St : Type 0} where
  -- The task that `removeConnection` gives to the main loop; the assertion of the destructor comes first.
  unfoldable pub erase_connection : List ℕ → Server St → Result (Server St)
  unfolding count erased release_entry
  erase_connection name s = do
    release_entry s.connections name
    check (count s.connections name == 1) assertion
    ok (record s { connections = erased s.connections name })

  -- `findConnectionByFd`
  unfoldable pub find_by_fd : List (List ℕ × TcpConnection St) → ℕ → Option (TcpConnection St)
  find_by_fd [] fd = none
  find_by_fd ((name, c) ∷ rest) fd =
      let later = find_by_fd rest fd in if c.watch.channel.fd == fd then some c else later

  -- After the task of removeConnection has removed a connection, its name is not in the map, a
  -- second such task for it fails the assertion, and the connections of all other descriptors
  -- stay.
  pub erase_connection_lem :
      (fd : ℕ) (s s' : Server St)
      → erase_connection (conn_name fd) s ≡ ok s'
      → (erase_connection (conn_name fd) s' ≡ fault assertion)
        × (entry s'.connections (conn_name fd) ≡ none)
        × ((other : ℕ)
            → fd ≢ other
            → entry s'.connections (conn_name other) ≡ entry s.connections (conn_name other))
  unfolding erase_connection count release_entry
  erase_connection_lem fd s s' e =
      let after : s'.connections ≡ erased s.connections (conn_name fd) = ground (arith, e) in
      let gone : entry s'.connections (conn_name fd) ≡ none =
        ap (λ m. entry m (conn_name fd)) after ∙ entry-erased s.connections (conn_name fd) in
      (
        ground (arith, gone),
        gone,
        λ other h.
            ap (λ m. entry m (conn_name other)) after
            ∙ entry-erased_other s.connections (conn_name fd) (conn_name other)
                (λ same. h (conn_name-injective fd other same)),
      )
