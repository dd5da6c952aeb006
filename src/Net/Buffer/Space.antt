-- ===== src/Net/Buffer/Space.antt =====
-- net/buffer.cpp: making room, by growing the storage or by moving the waiting bytes to its front.
use my_net_core_proxy.Prelude.{
  ℕ, ◌+◌, ◌-◌, ◌≤◌, ◌<◌, ◌≡◌, ◌∙◌, ap, length, arith, ltb, ok, Bool-cases, inl, inr, if◌then◌else◌,
}
use my_net_core_proxy.Prelude.Slices.{
  slice, overwrite, resize, load, store, move, length-overwrite, length-resize, slice-resize,
  slice-overwrite_self,
}
use my_net_core_proxy.Net.Buffer.{
  Buffer, max_size, readable_bytes, grow, compact, make_space, ensure_writeable_bytes,
}
use my_net_core_proxy.Net.Buffer.Valid.{IsValid, contents, length-contents}

-- A buffer whose next `n` writes fit, with the bytes of `b`.
pub record Ready (b : Buffer) (n : ℕ) (b' : Buffer) : Type 0 where
  pub valid : IsValid b'
  pub same : contents b' ≡ contents b
  pub room : b'.writer_index + n ≤ length b'.buffer
  pub front : b'.writer_index ≤ b.writer_index
  pub grew : length b'.buffer ≤ length b.buffer + n

grown : Buffer → ℕ → Buffer
grown b n = record b { buffer = resize b.buffer (b.writer_index + n) }

grow_lem :
    {b : Buffer} (n : ℕ)
    → IsValid b
    → length b.buffer ≤ b.writer_index + n
    → b.writer_index + n ≤ max_size
    → (grow b n ≡ ok (grown b n)) × Ready b n (grown b n)
unfolding grow grown
grow_lem {b} n v h k = (
  ground arith,
  record {
    valid = omega (arith, length-resize b.buffer (b.writer_index + n));
    same = slice-resize b.buffer (b.writer_index + n) b.reader_index _ (omega arith) h;
    room = omega (arith, length-resize b.buffer (b.writer_index + n));
    front = omega arith;
    grew = omega (arith, length-resize b.buffer (b.writer_index + n));
  },
)

compacted : Buffer → Buffer
compacted b = record {
  buffer = overwrite b.buffer 8 (contents b);
  reader_index = 8;
  writer_index = 8 + (b.writer_index - b.reader_index);
}

compact_lem :
    {b : Buffer} (n : ℕ)
    → IsValid b
    → 8 < b.reader_index
    → n + 8 ≤ length b.buffer - b.writer_index + b.reader_index
    → (compact b ≡ ok (compacted b)) × Ready b n (compacted b)
unfolding compact compacted move load store readable_bytes
compact_lem {b} n v h k = (
  ground (arith, length-contents v),
  record {
    valid = omega (arith, length-contents v, length-overwrite b.buffer 8 (contents b));
    same =
        ap (slice (overwrite b.buffer 8 (contents b)) 8) (omega (arith, length-contents v))
        ∙ slice-overwrite_self b.buffer 8 (contents b) (omega (arith, length-contents v));
    room = omega (arith, length-contents v, length-overwrite b.buffer 8 (contents b));
    front = omega arith;
    grew = omega (arith, length-contents v, length-overwrite b.buffer 8 (contents b));
  },
)

pub ready_buffer : Buffer → ℕ → Buffer
ready_buffer b n =
    if ltb (length b.buffer - b.writer_index) n
    then (if ltb (length b.buffer - b.writer_index + b.reader_index) (n + 8)
        then grown b n
        else compacted b)
    else b

make_space_lem :
    {b : Buffer} (n : ℕ)
    → IsValid b
    → length b.buffer - b.writer_index < n
    → b.writer_index + n ≤ max_size
    → let b' =
        if ltb (length b.buffer - b.writer_index + b.reader_index) (n + 8)
        then grown b n
        else compacted b in
      (make_space b n ≡ ok b') × Ready b n b'
unfolding make_space
make_space_lem {b} n v h k =
    elim (Bool-cases (ltb (length b.buffer - b.writer_index + b.reader_index) (n + 8))) [
      | inl e ↦ rw e (ground (arith, grow_lem n v))
      | inr e ↦ rw e (ground (arith, compact_lem n v))
    ]

pub ensure_lem :
    {b : Buffer} (n : ℕ)
    → IsValid b
    → b.writer_index + n ≤ max_size
    → (ensure_writeable_bytes b n ≡ ok (ready_buffer b n)) × Ready b n (ready_buffer b n)
unfolding ensure_writeable_bytes ready_buffer
ensure_lem {b} n v h = elim (Bool-cases (ltb (length b.buffer - b.writer_index) n)) [
  | inl e ↦ ground (arith, make_space_lem n v)
  | inr e ↦ ground arith
]
