-- ===== src/Net/ThreadPool.antt =====
-- net/thread_pool.h and net/thread_pool.cpp: the pool of loops, and the turn by which a new connection
-- gets one. `L` stands for a pointer to a loop; `start_loop i` is what the i-th thread's startLoop() gives.
mod Tests
use my_net_core_proxy.Prelude.{
  ℕ, zero, suc, ◌+◌, ◌-◌, ◌*◌, ◌^◌, ◌%◌, ◌≤◌, ◌<◌, ◌≡◌, ◌≢◌, refl, sym, ◌∙◌, ap, Bool, true, false,
  ◌==◌, if◌then◌else◌, Option, none, some, List, [], ◌∷◌, ◌++◌, length, get_elem?, Result, ok,
  fault, check, out_of_bounds, div_by_zero, ◌>>=◌, ◌>>◌, not, arith, append_assoc, length-append,
}
use native.Mathlib.Nat.{mod-add-mod, mod-eq_of_lt, mod-lt}

pub record ThreadPool (L : Type 0) : Type 0 where
  pub base_loop : L
  pub num_threads : ℕ
  pub is_started : Bool
  pub loops : List L
  pub next : ℕ

module _ {L : Type 0} where
  abbrev pub new : L → ℕ → ThreadPool L
  new base_loop num_threads = record {
    base_loop = base_loop;
    num_threads = num_threads;
    is_started = false;
    loops = [];
    next = 0;
  }

  -- The loop that starts the threads from `i` on, `n` of them.
  unfoldable pub start_loops : (ℕ → L) → ℕ → ℕ → List L
  start_loops start_loop i zero = []
  start_loops start_loop i (suc n) = start_loop i ∷ start_loops start_loop (suc i) n

  unfoldable pub start : (ℕ → L) → ThreadPool L → ThreadPool L
  unfolding start_loops
  start start_loop p =
      if not p.is_started
      then record p {
        loops =
            p.loops
            ++ (if p.num_threads == 0
                then p.base_loop ∷ []
                else start_loops start_loop 0 p.num_threads);
        is_started = true;
      }
      else p

  abbrev pub at_index : List L → ℕ → Result L
  at_index loops i = elim (get_elem? loops i) [ none ↦ fault out_of_bounds | some l ↦ ok l ]

  -- The assertion is on a string, which is never false.
  unfoldable pub get_next_loop : ThreadPool L → Result (L × ThreadPool L)
  get_next_loop p = if p.num_threads == 0 then ok (p.base_loop, p) else (do
    check (not (length p.loops == 0)) div_by_zero
    let i = p.next % length p.loops
    l ← at_index p.loops i
    ok (l, record p { next = (i + 1) % 2 ^ 64 }))

  -- The loop that the call returns after `k` other calls.
  unfoldable pub loop_after : ℕ → ThreadPool L → Result L
  loop_after zero p = do (l, p') ← get_next_loop p; ok l
  loop_after (suc k) p = do (l, p') ← get_next_loop p; loop_after k p'

  -- On a new pool that is asked for threads, getNextLoop before start() passes its assertion and
  -- divides by zero.
  pub get_next_loop_unstarted :
      (base_loop : L) (n : ℕ) → n ≢ 0 → get_next_loop (new base_loop n) ≡ fault div_by_zero
  unfolding get_next_loop
  get_next_loop_unstarted base_loop n h = ground arith

  get_elem?-inside : (xs : List L) (i : ℕ) → i < length xs → (a : L) × (get_elem? xs i ≡ some a)
  get_elem?-inside [] i h = absurd (omega arith)
  get_elem?-inside (x ∷ xs) zero h = (x, refl)
  get_elem?-inside (x ∷ xs) (suc i) h = get_elem?-inside xs i (omega arith)

  pub get_next_loop_lem :
      (p : ThreadPool L)
      → p.num_threads ≢ 0
      → length p.loops ≢ 0
      → length p.loops < 2 ^ 64
      → (l : L) × (get_elem? p.loops (p.next % length p.loops) ≡ some l)
        × (get_next_loop p ≡ ok (l, record p { next = p.next % length p.loops + 1 }))
  unfolding get_next_loop
  get_next_loop_lem p n e small =
      let inside : p.next % length p.loops < length p.loops = grind arith in
      let (l, h) = get_elem?-inside p.loops (p.next % length p.loops) inside in
      let z : (p.next % length p.loops + 1) % 2 ^ 64 ≡ p.next % length p.loops + 1 =
        mod-eq_of_lt (omega (arith, inside)) in
      (l, h, ground (arith, h, z))

  -- The loops are given in turn: whatever the index is, the call after `k` others returns the loop `k`
  -- places on, round the end of the list.
  loop_after_lem :
      (k : ℕ) (p : ThreadPool L)
      → p.num_threads ≢ 0
      → length p.loops ≢ 0
      → length p.loops < 2 ^ 64
      → (l : L) × (get_elem? p.loops ((p.next + k) % length p.loops) ≡ some l)
        × (loop_after k p ≡ ok l)
  unfolding loop_after
  loop_after_lem zero p n e small =
      let (l, h, run) = get_next_loop_lem p n e small in
      let z : p.next + 0 ≡ p.next = omega arith in (l, rw z h, ground (arith, run))
  loop_after_lem (suc k) p n e small =
      let (l, h, run) = get_next_loop_lem p n e small in
      let p' : ThreadPool L = record p { next = p.next % length p.loops + 1 } in
      let (l', h', run') = loop_after_lem k p' n e small in
      let turn : (p.next % length p.loops + 1 + k) % length p.loops
          ≡ (p.next + suc k) % length p.loops =
        ap (λ i. i % length p.loops) (omega arith) ∙ mod-add-mod p.next (length p.loops) (suc k) in
      (l', ap (λ i. get_elem? p.loops i) (sym turn) ∙ h', ground (arith, run, run'))

  loop_after_at :
      (k : ℕ) (p : ThreadPool L) (x : L)
      → p.num_threads ≢ 0
      → length p.loops ≢ 0
      → length p.loops < 2 ^ 64
      → get_elem? p.loops ((p.next + k) % length p.loops) ≡ some x
      → loop_after k p ≡ ok x
  loop_after_at k p x n e small h =
      let (l, h', run) = loop_after_lem k p n e small in
      let same : some l ≡ some x = sym h' ∙ h in run ∙ ground (arith, same)

  pub start_loops-get_elem? :
      (f : ℕ → L) (i n j : ℕ) → j < n → get_elem? (start_loops f i n) j ≡ some (f (i + j))
  unfolding start_loops
  start_loops-get_elem? f i zero j h = absurd (omega arith)
  start_loops-get_elem? f i (suc n) zero h = ap (λ k. some (f k)) (omega arith)
  start_loops-get_elem? f i (suc n) (suc j) h =
      start_loops-get_elem? f (suc i) n j (omega arith) ∙ ap (λ k. some (f k)) (omega arith)

  pub length-start_loops : (f : ℕ → L) (i n : ℕ) → length (start_loops f i n) ≡ n
  unfolding start_loops
  length-start_loops f i zero = refl
  length-start_loops f i (suc n) = ap suc (length-start_loops f (suc i) n)

  -- After start() of a pool of n threads, n not 0 and below 2^64, the call of getNextLoop after k
  -- others returns the loop of thread k modulo n.
  pub loop_after-start :
      (f : ℕ → L) (base_loop : L) (n k : ℕ)
      → n ≢ 0
      → n < 2 ^ 64
      → loop_after k (start f (new base_loop n)) ≡ ok (f (k % n))
  unfolding start
  loop_after-start f base_loop n k h small =
      let p : ThreadPool L = start f (new base_loop n) in
      let made : p.loops ≡ start_loops f 0 n = ground (arith, h) in
      let len : length p.loops ≡ n = ap length made ∙ length-start_loops f 0 n in
      let at : (p.next + k) % length p.loops ≡ k % n = rw len (ap (λ i. i % n) (omega arith)) in
      let inside : k % n < n = mod-lt k (omega arith) in
      let entry : get_elem? p.loops ((p.next + k) % length p.loops) ≡ some (f (k % n)) =
        ap (get_elem? p.loops) at
        ∙ ap (λ l. get_elem? l (k % n)) made
        ∙ start_loops-get_elem? f 0 n (k % n) inside
        ∙ ap (λ i. some (f i)) (omega arith) in
      loop_after_at k p (f (k % n)) h (omega arith) (omega arith) entry
