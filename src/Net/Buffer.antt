-- ===== src/Net/Buffer.antt =====
-- net/buffer.h and net/buffer.cpp: a byte queue in one block of storage, with room to prepend.
-- A byte is a number; a pointer into the storage is its index. `size_t` sums and differences wrap.
pub mod Valid
pub mod Space
pub mod Contents
pub mod Strings
pub mod Read
pub mod Storage
pub mod Arrival
pub mod Queue
mod Tests
use my_net_core_proxy.Prelude.{
  ℕ, ◌+◌, ◌-◌, ◌%◌, ◌^◌, Bool, true, false, List, [], ◌∷◌, length, take, drop, replicate, ltb, leb,
  ◌==◌, if◌then◌else◌, Result, ok, fault, check, ◌>>=◌, ◌>>◌, assertion, length_error,
}
use my_net_core_proxy.Prelude.Slices.{load, store, move, resize}

-- `cacheHeapPrepend_`
abbrev pub cache_heap_prepend : ℕ
cache_heap_prepend = 8

-- `initialSize_`
abbrev pub initial_size : ℕ
initial_size = 1024

-- The `max_size()` of `std::vector<char>`.
abbrev pub max_size : ℕ
max_size = 2 ^ 63 - 1

abbrev pub add_size : ℕ → ℕ → ℕ
add_size a b = (a + b) % 2 ^ 64

abbrev pub sub_size : ℕ → ℕ → ℕ
sub_size a b = (a + 2 ^ 64 - b) % 2 ^ 64

pub record Buffer : Type 0 where
  pub buffer : List ℕ
  pub reader_index : ℕ
  pub writer_index : ℕ

pub readable_bytes : Buffer → ℕ
readable_bytes b = sub_size b.writer_index b.reader_index

pub writable_bytes : Buffer → ℕ
writable_bytes b = sub_size (length b.buffer) b.writer_index

pub prependable_bytes : Buffer → ℕ
prependable_bytes b = b.reader_index

-- `peek` and `beginwrite`, as indices.
pub peek : Buffer → ℕ
peek b = b.reader_index

pub beginwrite : Buffer → ℕ
beginwrite b = b.writer_index

-- The constructor, its three assertions included.
pub new : ℕ → Result Buffer
unfolding readable_bytes writable_bytes prependable_bytes
new size = do
  let b : Buffer = record {
    buffer = replicate (add_size cache_heap_prepend size) 0;
    reader_index = cache_heap_prepend;
    writer_index = cache_heap_prepend;
  }
  check (leb (add_size cache_heap_prepend size) max_size) length_error
  check (readable_bytes b == 0) assertion
  check (writable_bytes b == size) assertion
  check (prependable_bytes b == cache_heap_prepend) assertion
  ok b

pub retrieve_all : Buffer → Buffer
retrieve_all b = record b { reader_index = cache_heap_prepend; writer_index = cache_heap_prepend }

pub retrieve : Buffer → ℕ → Buffer
unfolding readable_bytes retrieve_all
retrieve b len =
    if ltb len (readable_bytes b)
    then record b { reader_index = add_size b.reader_index len }
    else retrieve_all b

pub retrieve_until : Buffer → ℕ → Result Buffer
unfolding peek beginwrite
retrieve_until b end = do
  check (leb (peek b) end) assertion
  check (leb end (beginwrite b)) assertion
  ok (retrieve b (sub_size end (peek b)))

pub peek_as_string : Buffer → ℕ → Result (List ℕ)
unfolding peek load
peek_as_string b len = load b.buffer (peek b) len

pub retrieve_as_string : Buffer → ℕ → Result (List ℕ × Buffer)
unfolding retrieve peek load
retrieve_as_string b len = do result ← load b.buffer (peek b) len; ok (result, retrieve b len)

pub retrieve_all_as_string : Buffer → Result (List ℕ × Buffer)
unfolding retrieve_as_string readable_bytes
retrieve_all_as_string b = retrieve_as_string b (readable_bytes b)

pub grow : Buffer → ℕ → Result Buffer
unfolding resize
grow b len = do
  check (leb (add_size b.writer_index len) max_size) length_error
  ok (record b { buffer = resize b.buffer (add_size b.writer_index len) })

pub compact : Buffer → Result Buffer
unfolding readable_bytes move
compact b = do
  buffer' ← move b.buffer b.reader_index b.writer_index cache_heap_prepend
  let b' : Buffer = record {
    buffer = buffer';
    reader_index = cache_heap_prepend;
    writer_index = add_size cache_heap_prepend (readable_bytes b);
  }
  check (readable_bytes b == readable_bytes b') assertion
  ok b'

pub make_space : Buffer → ℕ → Result Buffer
unfolding writable_bytes prependable_bytes
make_space b len =
    if ltb (add_size (writable_bytes b) (prependable_bytes b)) (add_size len cache_heap_prepend)
    then grow b len
    else compact b

pub ensure_writeable_bytes : Buffer → ℕ → Result Buffer
unfolding writable_bytes
ensure_writeable_bytes b len = do
  b' ← if ltb (writable_bytes b) len then make_space b len else ok b
  check (leb len (writable_bytes b')) assertion
  ok b'

pub append : Buffer → List ℕ → Result Buffer
unfolding beginwrite store
append b xs = do
  b' ← ensure_writeable_bytes b (length xs)
  buffer' ← store b'.buffer (beginwrite b') xs
  ok (record b' { buffer = buffer'; writer_index = add_size b'.writer_index (length xs) })

pub prepend : Buffer → List ℕ → Result Buffer
unfolding prependable_bytes store
prepend b xs = do
  check (leb (length xs) (prependable_bytes b)) assertion
  let reader' = sub_size b.reader_index (length xs)
  buffer' ← store b.buffer reader' xs
  ok (record b { buffer = buffer'; reader_index = reader' })

-- `sizeof(extrabuf)`
abbrev pub extra_size : ℕ
extra_size = 65536

-- What `readv` did: the bytes that it spread over the vectors in order, or its `errno`.
pub data Readv : Type 0 where
  received : List ℕ → Readv
  failed : ℕ → Readv

-- The bytes that the vectors given to `readv` hold together: `extrabuf` only stands behind a
-- writable part that is smaller than it.
pub iov_len : Buffer → ℕ
unfolding writable_bytes
iov_len b =
    let writable = writable_bytes b in
    if ltb writable extra_size then writable + extra_size else writable

pub read_in : Buffer → List ℕ → Result Buffer
unfolding writable_bytes beginwrite store
read_in b xs =
    if leb (length xs) (writable_bytes b)
    then (do
      buffer' ← store b.buffer (beginwrite b) xs
      ok (record b { buffer = buffer'; writer_index = add_size b.writer_index (length xs) }))
    else (do
      buffer' ← store b.buffer (beginwrite b) (take (writable_bytes b) xs)
      append (record b { buffer = buffer'; writer_index = length buffer' })
          (drop (writable_bytes b) xs))

-- The kernel's `readv` is the argument: what it does with vectors of so many bytes in all. The
-- answer holds the count or the saved `errno`, which are those of `readv`.
pub read_fd : Buffer → (ℕ → Readv) → Result (Readv × Buffer)
unfolding iov_len
read_fd b readv = elim (readv (iov_len b)) [
  | failed e ↦ ok (failed e, b)
  | received xs ↦ do b' ← read_in b xs; ok (received xs, b')
]
