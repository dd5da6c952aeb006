-- ===== src/Net/Buffer/Queue.antt =====
-- A buffer as its users see it: a queue of bytes, whatever the storage does.
use my_net_core_proxy.Prelude.{
  ℕ, ◌+◌, ◌≤◌, ◌≡◌, refl, List, [], ◌∷◌, ◌++◌, length, drop, arith, Result, ok, ◌>>=◌,
}
use my_net_core_proxy.Net.Buffer.{
  Buffer, max_size, append, retrieve, retrieve_all, retrieve_all_as_string,
}
use my_net_core_proxy.Net.Buffer.Valid.{IsValid, contents}
use my_net_core_proxy.Net.Buffer.Contents.{contents-append, contents-retrieve}
use my_net_core_proxy.Net.Buffer.Strings.{retrieve_all_as_string_lem}

pub data Call : Type 0 where
  appends : List ℕ → Call
  retrieves : ℕ → Call
  reads_all : Call

-- The calls on the queue of the waiting bytes, with what each returns.
abbrev pub queue_step : List ℕ → Call → List ℕ × List ℕ
queue_step q (appends xs) = (q ++ xs, [])
queue_step q (retrieves n) = (drop n q, [])
queue_step q reads_all = ([], q)

abbrev pub queue_run : List ℕ → List Call → List (List ℕ)
queue_run q [] = []
queue_run q (c ∷ cs) = let (q', out) = queue_step q c in out ∷ queue_run q' cs

-- The same calls on a buffer.
pub step : Buffer → Call → Result (Buffer × List ℕ)
step b (appends xs) = do b' ← append b xs; ok (b', [])
step b (retrieves n) = ok (retrieve b n, [])
step b reads_all = do (out, b') ← retrieve_all_as_string b; ok (b', out)

pub run : Buffer → List Call → Result (List (List ℕ))
run b [] = ok []
run b (c ∷ cs) = do (b', out) ← step b c; outs ← run b' cs; ok (out ∷ outs)

-- The bytes that a call appends.
abbrev pub added : Call → ℕ
added (appends xs) = length xs
added (retrieves n) = 0
added reads_all = 0

abbrev pub total : List Call → ℕ
total [] = 0
total (c ∷ cs) = added c + total cs

step_refines :
    {b : Buffer} (c : Call)
    → IsValid b
    → b.writer_index + added c ≤ max_size
    → (b' : Buffer) × (step b c ≡ ok (b', (queue_step (contents b) c).1))
      × IsValid b'
      × (contents b' ≡ (queue_step (contents b) c).0)
      × (b'.writer_index ≤ b.writer_index + added c)
unfolding step retrieve
step_refines {b} (appends xs) v h =
    let (b', e, v', bytes, end) = contents-append {b = b} xs v h in
    (b', ground (arith, e), v', bytes, end)
step_refines {b} (retrieves n) v h =
    let (v', bytes) = contents-retrieve {b = b} n v in (retrieve b n, refl, v', bytes, ground arith)
step_refines {b} reads_all v h =
    let (e, v', bytes) = retrieve_all_as_string_lem {b = b} v in
    (retrieve_all b, ground (arith, e), v', bytes, ground arith)

-- No sequence of appends, retrieves and whole reads tells a valid buffer from the queue of its
-- waiting bytes: if the writer index and the bytes to append stay within max_size, no call faults
-- and each returns what the queue returns.
pub run_refines :
    (cs : List Call) {b : Buffer}
    → IsValid b
    → b.writer_index + total cs ≤ max_size
    → run b cs ≡ ok (queue_run (contents b) cs)
unfolding run
run_refines [] v h = refl
run_refines (c ∷ cs) {b} v h =
    let (b', e, v', bytes, end) = step_refines {b = b} c v (omega arith) in
    ground (arith, e, bytes, run_refines cs {b = b'} v' (omega arith))
