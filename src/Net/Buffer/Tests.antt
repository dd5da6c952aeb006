-- ===== src/Net/Buffer/Tests.antt =====
-- Runs of the buffer, and each theorem at a concrete buffer.
use my_net_core_proxy.Prelude.{ℕ, ◌≡◌, refl, ◌⊎◌, List, [], ◌∷◌, take, arith, ok, length-take, ◌≤◌}
use my_net_core_proxy.Prelude.Slices.{overwrite}
use my_net_core_proxy.Net.Buffer.{
  Buffer, Readv, received, failed, append, retrieve, retrieve_all, retrieve_as_string,
  peek_as_string, retrieve_all_as_string, read_fd, iov_len, ensure_writeable_bytes, make_space,
  grow, compact,
}
use my_net_core_proxy.Net.Buffer.Valid.{IsValid, contents}
use my_net_core_proxy.Net.Buffer.Contents.{contents-append}
use my_net_core_proxy.Net.Buffer.Strings.{retrieve_as_string_lem, retrieve_all_as_string_lem}
use my_net_core_proxy.Net.Buffer.Read.{Fits, contents-read_fd}
use my_net_core_proxy.Net.Buffer.Queue.{run, appends, retrieves, reads_all, run_refines}

-- 1 2 3 wait to be read; two bytes have been read, two are free.
abbrev sample : Buffer
sample = record {
  buffer = 0 ∷ 0 ∷ 0 ∷ 0 ∷ 0 ∷ 0 ∷ 0 ∷ 0 ∷ 8 ∷ 9 ∷ 1 ∷ 2 ∷ 3 ∷ 0 ∷ 0 ∷ [];
  reader_index = 10;
  writer_index = 13;
}

sample-IsValid : IsValid sample
sample-IsValid = omega arith

-- Four more bytes do not fit behind the writer, and fit once the waiting ones are moved.
append_compacts :
    append sample (4 ∷ 5 ∷ 6 ∷ 7 ∷ [])
    ≡ ok (record {
      buffer = 0 ∷ 0 ∷ 0 ∷ 0 ∷ 0 ∷ 0 ∷ 0 ∷ 0 ∷ 1 ∷ 2 ∷ 3 ∷ 4 ∷ 5 ∷ 6 ∷ 7 ∷ [];
      reader_index = 8;
      writer_index = 15;
    })
unfolding append ensure_writeable_bytes make_space compact overwrite
append_compacts = refl

-- Five do not, and the storage grows.
append_grows :
    append sample (4 ∷ 5 ∷ 6 ∷ 7 ∷ 8 ∷ [])
    ≡ ok (record {
      buffer = 0 ∷ 0 ∷ 0 ∷ 0 ∷ 0 ∷ 0 ∷ 0 ∷ 0 ∷ 8 ∷ 9 ∷ 1 ∷ 2 ∷ 3 ∷ 4 ∷ 5 ∷ 6 ∷ 7 ∷ 8 ∷ [];
      reader_index = 10;
      writer_index = 18;
    })
unfolding append ensure_writeable_bytes make_space grow overwrite
append_grows = refl

contents-append_example :
    (b' : Buffer) × (append sample (4 ∷ []) ≡ ok b')
    × IsValid b'
    × (contents b' ≡ 1 ∷ 2 ∷ 3 ∷ 4 ∷ [])
    × (b'.writer_index ≤ 14)
contents-append_example = contents-append {b = sample} (4 ∷ []) sample-IsValid (omega arith)

retrieve_as_string_lem_example :
    (retrieve_as_string sample 2 ≡ ok (1 ∷ 2 ∷ [], retrieve sample 2))
    × (peek_as_string sample 2 ≡ ok (1 ∷ 2 ∷ []))
retrieve_as_string_lem_example = retrieve_as_string_lem {b = sample} 2 sample-IsValid (omega arith)

retrieve_all_as_string_lem_example :
    (retrieve_all_as_string sample ≡ ok (1 ∷ 2 ∷ 3 ∷ [], retrieve_all sample))
    × IsValid (retrieve_all sample)
    × (contents (retrieve_all sample) ≡ [])
retrieve_all_as_string_lem_example = retrieve_all_as_string_lem {b = sample} sample-IsValid

-- A kernel that has five bytes to deliver.
abbrev five : ℕ → Readv
five room = received (take room (1 ∷ 2 ∷ 3 ∷ 4 ∷ 5 ∷ []))

five-Fits : Fits five
five-Fits room xs e = ground (arith, length-take {A = ℕ} room (1 ∷ 2 ∷ 3 ∷ 4 ∷ 5 ∷ []))

contents-read_fd_example :
    ((e : ℕ) × (five (iov_len sample) ≡ failed e) × (read_fd sample five ≡ ok (failed e, sample)))
    ⊎ ((xs : List ℕ) × (b' : Buffer) × (five (iov_len sample) ≡ received xs)
        × (read_fd sample five ≡ ok (received xs, b'))
        × IsValid b'
        × (contents b' ≡ 1 ∷ 2 ∷ 3 ∷ xs))
contents-read_fd_example = contents-read_fd {b = sample} five five-Fits sample-IsValid (omega arith)

run_refines_example :
    run sample (appends (4 ∷ 5 ∷ 6 ∷ []) ∷ retrieves 2 ∷ reads_all ∷ [])
    ≡ ok ([] ∷ [] ∷ (3 ∷ 4 ∷ 5 ∷ 6 ∷ []) ∷ [])
run_refines_example =
    run_refines (appends (4 ∷ 5 ∷ 6 ∷ []) ∷ retrieves 2 ∷ reads_all ∷ []) {b = sample}
      sample-IsValid (omega arith)
