-- ===== src/Net/TcpConnection/Flush.antt =====
-- net/tcp_connection.cpp: the loop of `handleWrite` over the output buffer.
use my_net_core_proxy.Prelude.{
  ℕ, zero, suc, ◌≤◌, ◌≡◌, refl, sym, ◌∙◌, ap, ap₂, subst, ◌⊎◌, inl, inr, ◌≢◌, true, false, ◌==◌, [],
  ◌++◌, append_assoc, length, take, drop, length-drop, take-append-drop, Bool-cases, Result, ok,
  arith,
}
use my_net_core_proxy.Net.Buffer.{retrieve, readable_bytes}
use my_net_core_proxy.Net.Buffer.Valid.{IsValid, contents, length-contents, no_wrap}
use my_net_core_proxy.Net.Buffer.Contents.{contents-retrieve}
use my_net_core_proxy.Net.Channel.{is_writing}
use my_net_core_proxy.Net.EventLoop.{Epoll}
use my_net_core_proxy.Net.EventLoop.Watch.{disable_writing}
use my_net_core_proxy.Net.TcpConnection.{
  TcpConnection, Environment, Written, wrote, refused, eagain, is_connecting,
  write_complete_callback, with_watch, handle_close,
}
use my_net_core_proxy.Net.TcpConnection.Io.{SoError, drained, write_failed, flush, handle_write}
use my_net_core_proxy.Net.TcpConnection.Closing.{IsQuiet}
use my_net_core_proxy.Net.TcpConnection.Kept.{stream, length-zero}
use my_net_core_proxy.Net.TcpConnection.Output.{run_in_loop_quiet}

module _ (kernel : Epoll) (env : Environment kernel.State) where
  -- The socket takes no more for now: a call of `write` left `EAGAIN` as the error.
  abbrev pub Blocked : TcpConnection kernel.State → Type 0
  Blocked c =
      (k : ℕ) × ((env.write k (contents c.output_buffer) ≡ refused eagain)
        ⊎ ((env.write k (contents c.output_buffer) ≡ wrote 0) × (env.stale_errno ≡ eagain)))

  -- A call of `write` failed for good: it left another error than `EAGAIN`.
  abbrev pub Broken : TcpConnection kernel.State → Type 0
  Broken c =
      (k errno : ℕ) × (errno ≢ eagain)
      × ((env.write k (contents c.output_buffer) ≡ refused errno)
          ⊎ ((env.write k (contents c.output_buffer) ≡ wrote 0) × (env.stale_errno ≡ errno)))

  -- How the loop ends from `c` with the result `out`: at a connection with the same stream, which is
  -- drained or blocked, or whose write failed for good and which is closed.
  abbrev pub FlushOutcome :
      TcpConnection kernel.State → Result (TcpConnection kernel.State) → Type 0
  FlushOutcome c out =
      (c' : TcpConnection kernel.State) × (stream c' ≡ stream c)
      × IsValid c'.output_buffer
      × (((out ≡ ok c') × ((contents c'.output_buffer ≡ []) ⊎ Blocked c'))
          ⊎ ((out ≡ handle_close kernel env c') × Broken c'))

  drained_lem :
      (c : TcpConnection kernel.State)
      → IsQuiet kernel env write_complete_callback
      → (c' : TcpConnection kernel.State) × (drained kernel env c ≡ ok c')
        × (c'.sent ≡ c.sent)
        × (c'.output_buffer ≡ c.output_buffer)
  unfolding drained with_watch
  drained_lem c q =
      let c1 : TcpConnection kernel.State = record c { watch = disable_writing kernel c.watch } in
      elim (Bool-cases (c.has write_complete_callback)) [
        | inl e ↦
            let (c', done, same) = run_in_loop_quiet kernel env write_complete_callback c1 q in
            (c', ground (arith, e, done), same.0, same.1)
        | inr e ↦ (c1, ground arith, refl, refl)
      ]

  waiting :
      (c : TcpConnection kernel.State)
      → IsValid c.output_buffer
      → readable_bytes c.output_buffer ≡ length (contents c.output_buffer)
  waiting c v = omega (arith, length-contents v, no_wrap v)

  -- One round of the loop keeps the stream.
  round-stream :
      (c : TcpConnection kernel.State) (n : ℕ)
      → IsValid c.output_buffer
      → c.sent ++ take n (contents c.output_buffer) ++ contents (retrieve c.output_buffer n)
        ≡ stream c
  round-stream c n v = rw ((contents-retrieve {b = c.output_buffer} n v).1) (
      append_assoc c.sent (take n (contents c.output_buffer)) (drop n (contents c.output_buffer))
      ∙ ap (◌++◌ c.sent) (take-append-drop n (contents c.output_buffer)))

  write_failed_lem :
      (k : ℕ) (errno : ℕ) (c : TcpConnection kernel.State)
      → IsValid c.output_buffer
      → (env.write k (contents c.output_buffer) ≡ refused errno)
        ⊎ ((env.write k (contents c.output_buffer) ≡ wrote 0) × (env.stale_errno ≡ errno))
      → FlushOutcome c (write_failed kernel env errno c)
  unfolding write_failed
  write_failed_lem k errno c v b = elim (Bool-cases (errno == eagain)) [
    | inl e ↦ (c, refl, v, inl (ground arith, inr (blocked (ground arith) b)))
    | inr e ↦ (c, refl, v, inr (ground arith, (k, errno, ground arith, b)))
  ]
    where
      blocked :
          errno ≡ eagain
          → (env.write k (contents c.output_buffer) ≡ refused errno)
            ⊎ ((env.write k (contents c.output_buffer) ≡ wrote 0) × (env.stale_errno ≡ errno))
          → Blocked c
      blocked e (inl w) = (k, inl (w ∙ ap refused e))
      blocked e (inr (w, s)) = (k, inr (w, s ∙ e))

  -- The connection after a `write` that took `n` bytes.
  abbrev took : TcpConnection kernel.State → ℕ → TcpConnection kernel.State
  took c n = record c {
    output_buffer = retrieve c.output_buffer n;
    sent = c.sent ++ take n (contents c.output_buffer);
  }

  -- The same outcome seen from an earlier connection with the same stream.
  earlier :
      (c c1 : TcpConnection kernel.State) (out : Result (TcpConnection kernel.State))
      → stream c1 ≡ stream c
      → FlushOutcome c1 out
      → FlushOutcome c out
  earlier c c1 out e (c', same, v, end) = (c', same ∙ e, v, end)

  last_round :
      (c : TcpConnection kernel.State) (n : ℕ)
      → IsQuiet kernel env write_complete_callback
      → IsValid c.output_buffer
      → readable_bytes (retrieve c.output_buffer n) ≡ 0
      → FlushOutcome c (drained kernel env (took c n))
  last_round c n q v e =
      let (valid, _) = contents-retrieve {b = c.output_buffer} n v in
      let (c', done, sent', out') = drained_lem (took c n) q in
      let empty : contents c'.output_buffer ≡ [] =
        ap contents out' ∙ length-zero _ (omega (arith, waiting (took c n) valid)) in
      (
        c',
        ap₂ ◌++◌ sent' (ap contents out') ∙ round-stream c n v,
        subst IsValid (sym out') valid,
        inl (done, inl empty),
      )

  flush_round :
      (fuel k : ℕ) (c : TcpConnection kernel.State) (answer : Written)
      → env.write k (contents c.output_buffer) ≡ answer
      → IsQuiet kernel env write_complete_callback
      → IsValid c.output_buffer
      → readable_bytes c.output_buffer ≢ 0
      → ((n : ℕ) → n ≢ 0 → FlushOutcome (took c n) (flush kernel env fuel (suc k) (took c n)))
      → FlushOutcome c (flush kernel env (suc fuel) k c)
  unfolding flush
  flush_round fuel k c (refused errno) w q v ne ih =
      let failed : flush kernel env (suc fuel) k c ≡ write_failed kernel env errno c =
        ground (arith, w) in
      rw failed (write_failed_lem k errno c v (inl w))
  flush_round fuel k c (wrote n) w q v ne ih = elim (Bool-cases (n == 0)) [
    | inl z ↦
        let failed : flush kernel env (suc fuel) k c ≡ write_failed kernel env env.stale_errno c =
          ground (arith, w, z) in
        rw failed (write_failed_lem k env.stale_errno c v (inr (w ∙ ap wrote (ground arith), refl)))
    | inr nz ↦ elim (Bool-cases (readable_bytes (retrieve c.output_buffer n) == 0)) [
      | inl empty ↦
          let end : flush kernel env (suc fuel) k c ≡ drained kernel env (took c n) =
            ground (arith, w, nz, empty) in
          rw end (last_round c n q v (ground arith))
      | inr more ↦
          let next : flush kernel env (suc fuel) k c ≡ flush kernel env fuel (suc k) (took c n) =
            ground (arith, w, nz, more) in
          rw next (
            earlier c (took c n) (flush kernel env fuel (suc k) (took c n)) (round-stream c n v)
              (ih n (ground arith)))
    ]
  ]

  flush_lem :
      (fuel k : ℕ) (c : TcpConnection kernel.State)
      → IsQuiet kernel env write_complete_callback
      → IsValid c.output_buffer
      → readable_bytes c.output_buffer ≤ fuel
      → FlushOutcome c (flush kernel env fuel k c)
  flush_lem zero k c q v h = (
    c,
    refl,
    v,
    inl (
      unfold flush in refl,
      inl (length-zero (contents c.output_buffer) (omega (arith, waiting c v))),
    ),
  )
  flush_lem (suc fuel) k c q v h = elim (Bool-cases (readable_bytes c.output_buffer == 0)) [
    | inl e ↦ (
      c,
      refl,
      v,
      inl (
        unfold flush in ground arith,
        inl (length-zero (contents c.output_buffer) (ground (arith, waiting c v))),
      ),
    )
    | inr e ↦
        flush_round fuel k c (env.write k (contents c.output_buffer)) refl q v (ground arith)
          λ n nz.
            let (valid, bytes) = contents-retrieve {b = c.output_buffer} n v in
            flush_lem fuel (suc k) (took c n) q valid (
              omega (
                arith,
                waiting (took c n) valid,
                waiting c v,
                ap length bytes,
                length-drop n (contents c.output_buffer),
              ))
  ]

  -- handleWrite on an established connection whose channel watches writing, in the thread of its
  -- loop, with a valid output buffer and a write-complete callback that leaves the connection
  -- alone: no byte is lost, repeated or swapped between those sent and those waiting, and the
  -- loop ends with the buffer drained, or, where a write left EAGAIN, with the rest waiting, or,
  -- where a write left another error, with what handleClose does.
  pub stream-handle_write :
      (answer : SoError) (c : TcpConnection kernel.State)
      → c.watch.loop.in_loop_thread ≡ true
      → is_connecting c.state ≡ false
      → is_writing c.watch.channel ≡ true
      → IsQuiet kernel env write_complete_callback
      → IsValid c.output_buffer
      → FlushOutcome c (handle_write kernel env answer c)
  stream-handle_write answer c thread state writing q v =
      let run : handle_write kernel env answer c
          ≡ flush kernel env (readable_bytes c.output_buffer) 0 c =
        unfold handle_write in ground arith in
      rw run (flush_lem (readable_bytes c.output_buffer) 0 c q v (omega arith))
