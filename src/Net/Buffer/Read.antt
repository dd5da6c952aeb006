-- ===== src/Net/Buffer/Read.antt =====
-- net/buffer.cpp: what `readFd` does with each answer of the kernel.
use my_net_core_proxy.Prelude.{
  ℕ, ◌+◌, ◌-◌, ◌≤◌, ◌<◌, ◌≡◌, refl, ◌∙◌, ap, ◌⊎◌, inl, inr, List, ◌++◌, length, take, drop, arith,
  leb, leb→le, Bool-cases, ok, length-take, length-drop, append_assoc, take-append-drop,
}
use my_net_core_proxy.Prelude.Slices.{length-overwrite}
use my_net_core_proxy.Net.Buffer.{
  Buffer, Readv, received, failed, max_size, extra_size, iov_len, read_in, read_fd,
}
use my_net_core_proxy.Net.Buffer.Valid.{IsValid, contents, no_wrap}
use my_net_core_proxy.Net.Buffer.Contents.{extended, extend_lem, contents-append}

-- The kernel never delivers more bytes than the vectors hold.
abbrev pub Fits : (ℕ → Readv) → Type 0
Fits readv = (cap : ℕ) (xs : List ℕ) → readv cap ≡ received xs → length xs ≤ cap

-- The bytes that fill the writable part, and the rest from the stack buffer.
read_over :
    {b : Buffer} (xs : List ℕ)
    → IsValid b
    → length b.buffer - b.writer_index < length xs
    → b.writer_index + length xs ≤ max_size
    → (b' : Buffer) × (read_in b xs ≡ ok b')
      × IsValid b'
      × (contents b' ≡ contents b ++ xs)
      × (b'.writer_index ≤ b.writer_index + length xs)
unfolding read_in
read_over {b} xs v h k =
    let n : ℕ = length b.buffer - b.writer_index in
    let first : List ℕ = take n xs in
    let rest : List ℕ = drop n xs in
    let size : length first ≡ n = omega (arith, length-take n xs) in
    let c : Buffer = extended b first in
    let (valid, bytes) = extend_lem {b = b} first v (omega arith) in
    let (b', done, valid', bytes', end) =
      contents-append {b = c} rest valid (omega (arith, length-drop n xs)) in
    let over : length c.buffer ≡ length b.buffer =
      length-overwrite b.buffer b.writer_index first (omega arith) in
    let at_end : c.writer_index ≡ length c.buffer = omega arith in
    let whole : contents b ++ first ++ rest ≡ contents b ++ xs =
      append_assoc (contents b) first rest ∙ ap (◌++◌ (contents b)) (take-append-drop n xs) in
    (
      b',
      ground (arith, no_wrap v, done, at_end, size),
      valid',
      bytes' ∙ ap (λ k. k ++ rest) bytes ∙ whole,
      omega (arith, length-drop n xs),
    )

read_in_lem :
    {b : Buffer} (xs : List ℕ)
    → IsValid b
    → b.writer_index + length xs ≤ max_size
    → (b' : Buffer) × (read_in b xs ≡ ok b')
      × IsValid b'
      × (contents b' ≡ contents b ++ xs)
      × (b'.writer_index ≤ b.writer_index + length xs)
unfolding read_in
read_in_lem {b} xs v k = elim (Bool-cases (leb (length xs) (length b.buffer - b.writer_index))) [
  | inl e ↦
      let (valid, bytes) = extend_lem {b = b} xs v (omega (arith, leb→le _ _ e)) in
      (extended b xs, ground arith, valid, bytes, omega arith)
  | inr e ↦ read_over xs v (ground arith) k
]

-- For a kernel that never delivers more bytes than the vectors hold, and a valid buffer with
-- 65536 bytes to spare below max_size, readFd either hands on the errno and leaves the buffer, or
-- puts all delivered bytes in order behind the waiting ones and keeps the invariant.
pub contents-read_fd :
    {b : Buffer} (readv : ℕ → Readv)
    → Fits readv
    → IsValid b
    → length b.buffer + extra_size ≤ max_size
    → ((e : ℕ) × (readv (iov_len b) ≡ failed e) × (read_fd b readv ≡ ok (failed e, b)))
      ⊎ ((xs : List ℕ) × (b' : Buffer) × (readv (iov_len b) ≡ received xs)
          × (read_fd b readv ≡ ok (received xs, b'))
          × IsValid b'
          × (contents b' ≡ contents b ++ xs))
unfolding read_fd
contents-read_fd {b} readv fits v k = by_answer (readv (iov_len b)) refl
  where
    by_answer :
        (r : Readv)
        → readv (iov_len b) ≡ r
        → ((e : ℕ) × (readv (iov_len b) ≡ failed e) × (read_fd b readv ≡ ok (failed e, b)))
          ⊎ ((xs : List ℕ) × (b' : Buffer) × (readv (iov_len b) ≡ received xs)
              × (read_fd b readv ≡ ok (received xs, b'))
              × IsValid b'
              × (contents b' ≡ contents b ++ xs))
    by_answer (failed e) h = inl (e, h, ground (arith, h))
    by_answer (received xs) h =
        let fit : length xs ≤ iov_len b = fits (iov_len b) xs h in
        let room : iov_len b ≤ length b.buffer - b.writer_index + extra_size = ground arith in
        let (b', done, valid, bytes, _) = read_in_lem {b = b} xs v (omega arith) in
        inr (xs, b', h, ground (arith, h, done), valid, bytes)
