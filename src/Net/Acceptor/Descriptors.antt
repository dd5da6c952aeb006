-- ===== src/Net/Acceptor/Descriptors.antt =====
-- net/acceptor.cpp: where the descriptors go that handleRead gets.
use my_net_core_proxy.Prelude.{
  ℕ, suc, ◌+◌, ◌≡◌, refl, ◌∙◌, ap, true, ◌==◌, ◌||◌, if◌then◌else◌, Bool-cases, none, some, List,
  [], ◌∷◌, ◌++◌, arith, replicate, zero, inl, inr,
}
use my_net_core_proxy.Net.InetAddress.{InetAddress}
use my_net_core_proxy.Net.TcpConnection.{eagain}
use my_net_core_proxy.Net.Acceptor.{
  Acceptor, Accepted, accepted, failed, Round, Accepting, left, looping, Fd, emfile, enfile, close,
  hand_on, turn_away, handle_read,
}

abbrev pub is : ℕ → ℕ → ℕ
is n m = if n == m then 1 else 0

abbrev pub held : ℕ → Fd → ℕ
held n none = 0
held n (some fd) = is n fd

abbrev pub times : ℕ → List ℕ → ℕ
times n [] = 0
times n (fd ∷ fds) = is n fd + times n fds

abbrev pub times_handed : ℕ → List (ℕ × InetAddress) → ℕ
times_handed n [] = 0
times_handed n ((fd, peer) ∷ fds) = is n fd + times_handed n fds

times-snoc : (n fd : ℕ) (fds : List ℕ) → times n (fds ++ fd ∷ []) ≡ times n fds + is n fd
times-snoc n fd [] = omega arith
times-snoc n fd (x ∷ fds) = omega (arith, times-snoc n fd fds)

times_handed-snoc :
    (n fd : ℕ) (peer : InetAddress) (fds : List (ℕ × InetAddress))
    → times_handed n (fds ++ (fd, peer) ∷ []) ≡ times_handed n fds + is n fd
times_handed-snoc n fd peer [] = omega arith
times_handed-snoc n fd peer ((x, p) ∷ fds) = omega (arith, times_handed-snoc n fd peer fds)

-- What the kernel gives in the rounds that handleRead runs through.
abbrev pub given : ℕ → List Round → ℕ
given n [] = 0
given n (round ∷ rounds) = elim round.accept4 [
  | accepted fd peer ↦ is n fd + given n rounds
  | failed errno ↦
      if errno == eagain
      then 0
      else if errno == emfile || errno == enfile
      then held n round.accept + held n round.open_null + given n rounds
      else 0
]

abbrev pub reached : {A : Type 0} → Accepting A → A
reached (left a) = a
reached (looping a) = a

-- A round in which the process is out of descriptors.
abbrev pub starved : ℕ → Round
starved errno = record { accept4 = failed errno; accept = none; open_null = none }

module _ {St T : Type 0} where
  -- The descriptor `n` as the acceptor accounts for it.
  abbrev pub accounted : ℕ → Acceptor St T → ℕ
  accounted n a = held n a.idle_fd + times n a.closed + times_handed n a.handed

  accounted-hand_on :
      (n fd : ℕ) (peer : InetAddress) (a : Acceptor St T)
      → accounted n (hand_on fd peer a) ≡ accounted n a + is n fd
  unfolding hand_on
  accounted-hand_on n fd peer a = elim (Bool-cases a.has_new_connection_callback) [
    | inl set ↦ rw set (omega (arith, times_handed-snoc n fd peer a.handed))
    | inr unset ↦ rw unset (omega (arith, times-snoc n fd a.closed))
  ]

  times-close :
      (n : ℕ) (fd : Fd) (a : Acceptor St T)
      → times n (close fd a).closed ≡ times n a.closed + held n fd
  unfolding close
  times-close n none a = omega arith
  times-close n (some fd) a = times-snoc n fd a.closed

  close-handed : (fd : Fd) (a : Acceptor St T) → (close fd a).handed ≡ a.handed
  unfolding close
  close-handed none a = refl
  close-handed (some fd) a = refl

  accounted-turn_away :
      (n : ℕ) (accept open_null : Fd) (a : Acceptor St T)
      → accounted n (turn_away accept open_null a)
        ≡ accounted n a + (held n accept + held n open_null)
  unfolding turn_away
  accounted-turn_away n accept open_null a =
      let same : times_handed n (close accept (close a.idle_fd a)).handed
          ≡ times_handed n a.handed =
        ap (times_handed n) (close-handed accept (close a.idle_fd a) ∙ close-handed a.idle_fd a) in
      omega (arith, times-close n accept (close a.idle_fd a), times-close n a.idle_fd a, same)

  -- One round more.
  accounted-round :
      (n : ℕ) (round : Round) (rounds : List Round) (a : Acceptor St T) (answer : Accepted)
      → round.accept4 ≡ answer
      → ((b : Acceptor St T)
          → accounted n (reached (handle_read rounds b)) ≡ accounted n b + given n rounds)
      → accounted n (reached (handle_read (round ∷ rounds) a))
        ≡ accounted n a + given n (round ∷ rounds)
  unfolding handle_read
  accounted-round n round rounds a (accepted fd peer) e later =
      rw e (omega (arith, later (hand_on fd peer a), accounted-hand_on n fd peer a))
  accounted-round n round rounds a (failed errno) e later =
      rw e (elim (Bool-cases (errno == eagain)) [
        | inl again ↦ rw again (omega arith)
        | inr other ↦ elim (Bool-cases (errno == emfile || errno == enfile)) [
          | inl full ↦
              rw (other, full)
                (omega (
                  arith,
                  later (turn_away round.accept round.open_null a),
                  accounted-turn_away n round.accept round.open_null a,
                ))
          | inr broken ↦ rw (other, broken) (omega arith)
        ]
      ])

  -- After handleRead, each descriptor counts among the spare one, those closed and those handed
  -- to the server as often as before and as often as the kernel gave it in the rounds that ran.
  pub accounted-handle_read :
      (n : ℕ) (rounds : List Round) (a : Acceptor St T)
      → accounted n (reached (handle_read rounds a)) ≡ accounted n a + given n rounds
  unfolding handle_read
  accounted-handle_read n [] a = omega arith
  accounted-handle_read n (round ∷ rounds) a =
      accounted-round n round rounds a round.accept4 refl (accounted-handle_read n rounds)

  -- On an acceptor without its spare descriptor, for EMFILE or ENFILE, no number of rounds that
  -- each meet this error, with accept and open failing too, takes handleRead out of its loop or
  -- changes the acceptor.
  pub handle_read-starved :
      (errno k : ℕ) (a : Acceptor St T)
      → (errno == emfile || errno == enfile) ≡ true
      → handle_read (replicate k (starved errno)) (record a { idle_fd = none })
        ≡ looping (record a { idle_fd = none })
  unfolding handle_read turn_away close
  handle_read-starved errno zero a h = refl
  handle_read-starved errno (suc k) a h = ground (arith, h, handle_read-starved errno k a h)
