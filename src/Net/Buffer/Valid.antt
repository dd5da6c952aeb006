-- ===== src/Net/Buffer/Valid.antt =====
-- net/buffer.cpp: the invariant of a buffer, and the operations that keep it.
use my_net_core_proxy.Prelude.{ℕ, ◌-◌, ◌≤◌, ◌≡◌, List, length, arith}
use my_net_core_proxy.Prelude.Slices.{slice, length-slice}
use my_net_core_proxy.Net.Buffer.{Buffer, max_size, readable_bytes, writable_bytes}

-- The reader is behind the writer, the writer behind the eight prepend bytes, and all in the storage.
pub record IsValid (b : Buffer) : Type 0 where
  pub ordered : b.reader_index ≤ b.writer_index
  pub inside : b.writer_index ≤ length b.buffer
  pub header : 8 ≤ b.writer_index
  pub small : length b.buffer ≤ max_size

-- The bytes between the reader and the writer.
abbrev pub contents : Buffer → List ℕ
contents b = slice b.buffer b.reader_index (b.writer_index - b.reader_index)

pub length-contents :
    {b : Buffer} → IsValid b → length (contents b) ≡ b.writer_index - b.reader_index
length-contents {b} v =
    length-slice b.buffer b.reader_index (b.writer_index - b.reader_index) (omega arith)

-- No `size_t` difference of a valid buffer wraps.
pub no_wrap :
    {b : Buffer}
    → IsValid b
    → (readable_bytes b ≡ b.writer_index - b.reader_index)
      × (writable_bytes b ≡ length b.buffer - b.writer_index)
unfolding readable_bytes writable_bytes
no_wrap v = omega arith
