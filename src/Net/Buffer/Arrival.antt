-- ===== src/Net/Buffer/Arrival.antt =====
-- net/buffer.cpp: `readFd` on a socket where bytes arrive in parts.
use my_net_core_proxy.Prelude.{
  ℕ, ◌+◌, ◌≤◌, ◌≡◌, ◌≢◌, refl, sym, ◌∙◌, ap, inl, inr, List, [], ◌++◌, length, take, arith, ok,
  length-take, take_all,
}
use my_net_core_proxy.Net.Buffer.{
  Buffer, Readv, received, failed, max_size, extra_size, iov_len, read_in, read_fd,
}
use my_net_core_proxy.Net.Buffer.Valid.{IsValid, contents, no_wrap}
use my_net_core_proxy.Net.Buffer.Read.{contents-read_fd}
use my_net_core_proxy.Net.Buffer.Storage.{storage-read_in}

-- `readv` where the bytes `xs` have arrived: as many of them as the vectors hold.
abbrev pub arrived : List ℕ → ℕ → Readv
arrived xs cap = received (take cap xs)

-- Some bytes, and no more than the vectors hold in any case.
pub record Part (xs : List ℕ) : Type 0 where
  pub some_bytes : xs ≢ []
  pub short : length xs ≤ extra_size

iov_len_enough : {b : Buffer} → IsValid b → extra_size ≤ iov_len b
unfolding iov_len
iov_len_enough {b} v = ground (arith, no_wrap v)

pub read_fd-arrived :
    {b : Buffer} (xs : List ℕ)
    → Part xs
    → IsValid b
    → length b.buffer + extra_size ≤ max_size
    → (b' : Buffer) × (read_fd b (arrived xs) ≡ ok (received xs, b'))
      × IsValid b'
      × (contents b' ≡ contents b ++ xs)
      × (length b'.buffer ≤ length b.buffer + length xs)
unfolding read_fd
read_fd-arrived {b} xs p v k =
    let whole : take (iov_len b) xs ≡ xs =
      take_all (iov_len b) xs (omega (arith, iov_len_enough v, p.short)) in
    let answer : arrived xs (iov_len b) ≡ received xs = ap (λ l. received l) whole in
    elim (contents-read_fd {b = b} (arrived xs) (λ cap ys e. fits cap ys e) v k) [
      | inl (e, refused, _) ↦ absurd (never e (sym answer ∙ refused))
      | inr (ys, b', got, done, v', bytes) ↦
          let same : ys ≡ xs = taken ys (sym got ∙ answer) in
          let read : read_fd b (arrived xs) ≡ ok (received xs, b') =
            done ∙ ap (λ l. ok (received l, b')) same in
          let inside : read_in b xs ≡ ok b' = ground (arith, answer, read) in
          (
            b',
            read,
            v',
            bytes ∙ ap (◌++◌ (contents b)) same,
            storage-read_in {b = b} xs v (omega (arith, p.short)) inside,
          )
    ]
  where
    never : (errno : ℕ) → received xs ≡ failed errno → ⊥
    never errno e = cc

    taken : (ys : List ℕ) → received ys ≡ received xs → ys ≡ xs
    taken ys e = cc

    fits : (cap : ℕ) (ys : List ℕ) → arrived xs cap ≡ received ys → length ys ≤ cap
    fits cap ys e =
        let same : take cap xs ≡ ys = cc in omega (arith, ap length same, length-take cap xs)

pub read_fd-failed :
    (b : Buffer) (errno : ℕ) → read_fd b (λ cap. failed errno) ≡ ok (failed errno, b)
unfolding read_fd
read_fd-failed b errno = refl
