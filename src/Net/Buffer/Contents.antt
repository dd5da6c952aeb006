-- ===== src/Net/Buffer/Contents.antt =====
-- net/buffer.cpp: what each operation does to the bytes between the reader and the writer.
use my_net_core_proxy.Prelude.{
  ℕ, ◌+◌, ◌-◌, ◌≤◌, ◌<◌, ◌≡◌, sym, ◌∙◌, ap, List, ◌++◌, length, drop, take, arith, ltb, ok, fault,
  Bool-cases, inl, inr, assertion, leb, ltb→lt, leb→le, drop-drop, drop_all, ◌⊎◌,
}
use my_net_core_proxy.Prelude.Slices.{
  slice, overwrite, length-overwrite, slice-overwrite_start, slice-overwrite_end, drop-take,
}
use my_net_core_proxy.Net.Buffer.{Buffer, max_size, retrieve, retrieve_all, append, prepend}
use my_net_core_proxy.Net.Buffer.Valid.{IsValid, contents, length-contents}
use my_net_core_proxy.Net.Buffer.Space.{ready_buffer, ensure_lem}

abbrev pub extended : Buffer → List ℕ → Buffer
extended b xs = record b {
  buffer = overwrite b.buffer b.writer_index xs;
  writer_index = b.writer_index + length xs;
}

-- Bytes written behind the writer, inside the storage.
pub extend_lem :
    {b : Buffer} (xs : List ℕ)
    → IsValid b
    → b.writer_index + length xs ≤ length b.buffer
    → IsValid (extended b xs) × (contents (extended b xs) ≡ contents b ++ xs)
extend_lem {b} xs v h =
    let n : ℕ = b.writer_index - b.reader_index in
    let w : b.reader_index + n ≡ b.writer_index = omega arith in
    let k : b.writer_index + length xs - b.reader_index ≡ n + length xs = omega arith in
    let whole : slice (overwrite b.buffer b.writer_index xs) b.reader_index (n + length xs)
        ≡ contents b ++ xs =
      rw w at (slice-overwrite_end b.buffer b.reader_index n xs (omega arith)) in
    (
      omega (arith, length-overwrite b.buffer b.writer_index xs),
      ap (slice (overwrite b.buffer b.writer_index xs) b.reader_index) k ∙ whole,
    )

-- On a valid buffer, appending bytes that keep the writer within max_size succeeds, keeps the
-- invariant, puts the bytes behind the waiting ones and moves the writer by at most their number.
pub contents-append :
    {b : Buffer} (xs : List ℕ)
    → IsValid b
    → b.writer_index + length xs ≤ max_size
    → (b' : Buffer) × (append b xs ≡ ok b')
      × IsValid b'
      × (contents b' ≡ contents b ++ xs)
      × (b'.writer_index ≤ b.writer_index + length xs)
unfolding append
contents-append {b} xs v h =
    let (e, r) = ensure_lem (length xs) v h in
    let c : Buffer = ready_buffer b (length xs) in
    let (valid, bytes) = extend_lem {b = c} xs r.valid r.room in
    (extended c xs, ground (arith, e, r), valid, bytes ∙ ap (λ k. k ++ xs) r.same, omega (arith, r))

prepended : Buffer → List ℕ → Buffer
prepended b xs = record b {
  buffer = overwrite b.buffer (b.reader_index - length xs) xs;
  reader_index = b.reader_index - length xs;
}

prepended_lem :
    {b : Buffer} (xs : List ℕ)
    → IsValid b
    → length xs ≤ b.reader_index
    → IsValid (prepended b xs) × (contents (prepended b xs) ≡ xs ++ contents b)
unfolding prepended
prepended_lem {b} xs v h =
    let i : ℕ = b.reader_index - length xs in
    let n : ℕ = b.writer_index - b.reader_index in
    let w : i + length xs ≡ b.reader_index = omega arith in
    let k : b.writer_index - i ≡ length xs + n = omega arith in
    let whole : slice (overwrite b.buffer i xs) i (length xs + n) ≡ xs ++ contents b =
      rw w at (slice-overwrite_start b.buffer i n xs (omega arith)) in
    (
      omega (arith, length-overwrite b.buffer i xs),
      ap (slice (overwrite b.buffer i xs) i) k ∙ whole,
    )

-- On a valid buffer, prepending more bytes than the room before the reader fails an assertion;
-- otherwise the bytes come first among the waiting ones, the invariant is kept and the reader
-- moves back by their number.
pub contents-prepend :
    {b : Buffer} (xs : List ℕ)
    → IsValid b
    → ((b.reader_index < length xs) × (prepend b xs ≡ fault assertion))
      ⊎ ((b' : Buffer) × (prepend b xs ≡ ok b')
          × IsValid b'
          × (contents b' ≡ xs ++ contents b)
          × (b'.reader_index + length xs ≡ b.reader_index))
unfolding prepend prepended
contents-prepend {b} xs v = elim (Bool-cases (leb (length xs) b.reader_index)) [
  | inl e ↦
      let (valid, bytes) = prepended_lem xs v (leb→le _ _ e) in
      inr (prepended b xs, ground arith, valid, bytes, omega (arith, leb→le _ _ e))
  | inr e ↦ inl (ground arith, ground arith)
]

drop-slice : (m : List ℕ) (i n k : ℕ) → drop k (slice m i n) ≡ slice m (i + k) (n - k)
drop-slice m i n k = drop-take k n (drop i m) ∙ ap (take (n - k)) (drop-drop k i m)

retrieve_some :
    {b : Buffer} (n : ℕ)
    → IsValid b
    → n < b.writer_index - b.reader_index
    → retrieve b n ≡ record b { reader_index = b.reader_index + n }
unfolding retrieve
retrieve_some n v h = ground arith

pub retrieve-eq-retrieve_all :
    {b : Buffer} (n : ℕ)
    → IsValid b
    → b.writer_index - b.reader_index ≤ n
    → retrieve b n ≡ retrieve_all b
unfolding retrieve
retrieve-eq-retrieve_all n v h = ground arith

-- On a valid buffer, retrieving keeps the invariant and drops that many bytes from the front of
-- the waiting ones, all of them if there are no more.
pub contents-retrieve :
    {b : Buffer} (n : ℕ)
    → IsValid b
    → IsValid (retrieve b n) × (contents (retrieve b n) ≡ drop n (contents b))
unfolding retrieve_all
contents-retrieve {b} n v = elim (Bool-cases (ltb n (b.writer_index - b.reader_index))) [
  | inl e ↦
      let k : b.writer_index - (b.reader_index + n) ≡ b.writer_index - b.reader_index - n =
        omega arith in
      rw (retrieve_some n v (ground arith)) (
        omega (arith, ltb→lt n _ e),
        ap (slice b.buffer (b.reader_index + n)) k
            ∙ sym (drop-slice b.buffer b.reader_index (b.writer_index - b.reader_index) n),
      )
  | inr e ↦
      rw (retrieve-eq-retrieve_all n v (ground arith))
        (omega arith, sym (drop_all n (contents b) (ground (arith, length-contents v))))
]
