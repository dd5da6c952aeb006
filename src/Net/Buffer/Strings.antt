-- ===== src/Net/Buffer/Strings.antt =====
-- net/buffer.cpp: the constructor, and the calls that hand out strings.
use my_net_core_proxy.Prelude.{
  ℕ, ◌+◌, ◌-◌, ◌≤◌, ◌<◌, ◌≡◌, refl, List, [], ◌++◌, length, drop, take, arith, ok, fault, replicate,
  Bool-cases, inl, inr, length-take, length-drop, assertion, length-replicate, leb, take-take,
  take-add, take_all, ◌⊎◌,
}
use my_net_core_proxy.Prelude.Slices.{slice}
use my_net_core_proxy.Net.Buffer.{
  sub_size, Buffer, max_size, readable_bytes, writable_bytes, prependable_bytes, retrieve,
  retrieve_all, new, retrieve_as_string, retrieve_all_as_string, retrieve_until, add_size,
  peek_as_string,
}
use my_net_core_proxy.Net.Buffer.Valid.{IsValid, contents, length-contents, no_wrap}
use my_net_core_proxy.Net.Buffer.Contents.{retrieve-eq-retrieve_all}

-- Reading a string takes it off the front, if so many bytes wait to be read.
pub retrieve_as_string_lem :
    {b : Buffer} (n : ℕ)
    → IsValid b
    → n ≤ length (contents b)
    → (retrieve_as_string b n ≡ ok (take n (contents b), retrieve b n))
      × (peek_as_string b n ≡ ok (take n (contents b)))
unfolding retrieve_as_string peek_as_string
retrieve_as_string_lem {b} n v h = ground (
  arith,
  length-contents v,
  take-take n (b.writer_index - b.reader_index) (drop b.reader_index b.buffer),
)

-- On a valid buffer, a read of more bytes than wait, but not past the storage, returns the
-- waiting bytes with at least one stale byte behind them and empties the buffer.
pub retrieve_as_string_stale :
    {b : Buffer} (n : ℕ)
    → IsValid b
    → length (contents b) < n
    → b.reader_index + n ≤ length b.buffer
    → (xs : List ℕ) × (retrieve_as_string b n ≡ ok (contents b ++ xs, retrieve_all b))
      × (length xs ≡ n - length (contents b))
      × (0 < length xs)
unfolding retrieve_as_string
retrieve_as_string_stale {b} n v h k =
    let q : ℕ = b.writer_index - b.reader_index in
    let len : length (contents b) ≡ q = length-contents v in
    let e : q + (n - q) ≡ n = omega arith in
    let cut : slice b.buffer b.reader_index n
        ≡ contents b ++ take (n - q) (drop q (drop b.reader_index b.buffer)) =
      rw e at (take-add q (n - q) (drop b.reader_index b.buffer)) in
    let size : length (take (n - q) (drop q (drop b.reader_index b.buffer))) ≡ n - q = omega (
      arith,
      length-take (n - q) (drop q (drop b.reader_index b.buffer)),
      length-drop q (drop b.reader_index b.buffer),
      length-drop b.reader_index b.buffer,
    ) in
    (
      take (n - q) (drop q (drop b.reader_index b.buffer)),
      ground (arith, cut, retrieve-eq-retrieve_all n v),
      omega arith,
      omega arith,
    )

-- Reading everything returns all waiting bytes and leaves none.
pub retrieve_all_as_string_lem :
    {b : Buffer}
    → IsValid b
    → (retrieve_all_as_string b ≡ ok (contents b, retrieve_all b))
      × IsValid (retrieve_all b)
      × (contents (retrieve_all b) ≡ [])
unfolding retrieve_all_as_string retrieve_all
retrieve_all_as_string_lem {b} v = (
  ground (
    arith,
    no_wrap v,
    length-contents v,
    retrieve_as_string_lem (readable_bytes b) v,
    retrieve-eq-retrieve_all (readable_bytes b) v,
    take_all (readable_bytes b) (contents b),
  ),
  omega arith,
  refl,
)

-- A new buffer of a size within max_size passes its assertions, is valid and empty, and has the
-- writable room asked for and 8 bytes before it.
pub new_lem :
    (size : ℕ)
    → 8 + size ≤ max_size
    → (b : Buffer) × (new size ≡ ok b)
      × IsValid b
      × (contents b ≡ [])
      × (writable_bytes b ≡ size)
      × (prependable_bytes b ≡ 8)
unfolding new
new_lem size h =
    let b : Buffer = record {
      buffer = replicate (8 + size) 0;
      reader_index = 8;
      writer_index = 8;
    } in
    let len : length b.buffer ≡ 8 + size = length-replicate {A = ℕ} (8 + size) 0 in
    let e : add_size 8 size ≡ 8 + size = omega arith in
    (b, rw e (ground (arith, len)), omega arith, refl, omega arith, refl)

-- On a valid buffer, retrieving up to a position between reader and writer retrieves the bytes
-- before it; any other position fails an assertion.
pub retrieve_until_lem :
    {b : Buffer} (end : ℕ)
    → IsValid b
    → ((b.reader_index ≤ end)
        × (end ≤ b.writer_index)
        × (retrieve_until b end ≡ ok (retrieve b (end - b.reader_index))))
      ⊎ (((end < b.reader_index) ⊎ (b.writer_index < end))
          × (retrieve_until b end ≡ fault assertion))
unfolding retrieve_until
retrieve_until_lem {b} end v = elim (Bool-cases (leb b.reader_index end)) [
  | inl lo ↦ elim (Bool-cases (leb end b.writer_index)) [
    | inl hi ↦
        let e : sub_size end b.reader_index ≡ end - b.reader_index = ground arith in
        inl (ground arith, ground arith, rw (lo, hi, e))
    | inr hi ↦ inr (inr (ground arith), ground arith)
  ]
  | inr lo ↦ inr (inl (ground arith), ground arith)
]
