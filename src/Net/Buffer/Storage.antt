-- ===== src/Net/Buffer/Storage.antt =====
-- net/buffer.cpp: how far the storage grows.
use my_net_core_proxy.Prelude.{
  ℕ, ◌+◌, ◌-◌, ◌≤◌, ◌<◌, ◌≡◌, refl, ap, inl, inr, List, length, take, drop, arith, leb, leb→le,
  Bool-cases, ok, length-take, length-drop, [], replicate, length-replicate, ◌^◌, ◌%◌,
}
use my_net_core_proxy.Prelude.Slices.{length-overwrite}
use my_net_core_proxy.Net.Buffer.{
  Buffer, new, readable_bytes, writable_bytes, prependable_bytes, retrieve_all, append, max_size,
  read_in,
}
use my_net_core_proxy.Net.Buffer.Valid.{IsValid, contents, no_wrap}
use my_net_core_proxy.Net.Buffer.Contents.{extended, extend_lem}
use my_net_core_proxy.Net.Buffer.Space.{ready_buffer, ensure_lem}

storage-append :
    {b b' : Buffer} (xs : List ℕ)
    → IsValid b
    → b.writer_index + length xs ≤ max_size
    → append b xs ≡ ok b'
    → length b'.buffer ≤ length b.buffer + length xs
unfolding append
storage-append {b} {b'} xs v h done =
    let (e, r) = ensure_lem (length xs) v h in
    let c : Buffer = ready_buffer b (length xs) in
    let size : length (extended c xs).buffer ≡ length c.buffer =
      length-overwrite c.buffer c.writer_index xs r.room in
    let same : b' ≡ extended c xs = ground (arith, e, r, done) in
    omega (arith, r.grew, size, ap (λ k. length k.buffer) same)

pub storage-read_in :
    {b b' : Buffer} (xs : List ℕ)
    → IsValid b
    → b.writer_index + length xs ≤ max_size
    → read_in b xs ≡ ok b'
    → length b'.buffer ≤ length b.buffer + length xs
unfolding read_in
storage-read_in {b} {b'} xs v k done =
    elim (Bool-cases (leb (length xs) (length b.buffer - b.writer_index))) [
      | inl e ↦
          let same : b' ≡ extended b xs = ground (arith, no_wrap v, done, e) in
          omega (
            arith,
            ap (λ k. length k.buffer) same,
            length-overwrite b.buffer b.writer_index xs (omega (arith, leb→le _ _ e)),
          )
      | inr e ↦
          let n : ℕ = length b.buffer - b.writer_index in
          let c : Buffer = extended b (take n xs) in
          let over_full : n < length xs = ground (arith, e) in
          let size : length (take n xs) ≡ n = omega (arith, length-take n xs) in
          let (valid, bytes) = extend_lem {b = b} (take n xs) v (omega arith) in
          let over : length c.buffer ≡ length b.buffer =
            length-overwrite b.buffer b.writer_index (take n xs) (omega arith) in
          let at_end : c.writer_index ≡ length c.buffer = omega arith in
          let rest : append c (drop n xs) ≡ ok b' =
            ground (arith, no_wrap v, done, e, at_end, size) in
          omega (
            arith,
            storage-append {b = c} (drop n xs) valid (omega (arith, length-drop n xs)) rest,
            length-drop n xs,
          )
    ]

pub storage-retrieve_all : (b : Buffer) → length (retrieve_all b).buffer ≡ length b.buffer
unfolding retrieve_all
storage-retrieve_all b = refl

-- The constructor passes its assertions.
pub new-IsValid :
    (size : ℕ)
    → 8 + size ≤ max_size
    → (b : Buffer) × (new size ≡ ok b)
      × IsValid b
      × (contents b ≡ [])
      × (length b.buffer ≡ 8 + size)
      × (b.writer_index ≡ 8)
unfolding new readable_bytes writable_bytes prependable_bytes
new-IsValid size h =
    let all : length (replicate {A = ℕ} (8 + size) 0) ≡ 8 + size = length-replicate (8 + size) 0 in
    let sum : (8 + size) % 2 ^ 64 ≡ 8 + size = omega arith in
    (
      record { buffer = replicate (8 + size) 0; reader_index = 8; writer_index = 8 },
      ground (arith, all, sum),
      omega (arith, all),
      refl,
      all,
      refl,
    )
