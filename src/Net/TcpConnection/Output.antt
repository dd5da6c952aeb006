-- ===== src/Net/TcpConnection/Output.antt =====
-- net/tcp_connection.cpp: the parts of a send that are behind the direct write, and what they leave as it
-- was.
use my_net_core_proxy.Prelude.{
  ℕ, zero, suc, ◌+◌, ◌-◌, ◌≤◌, ◌≡◌, refl, sym, ◌∙◌, ap, ap₂, subst, inl, inr, true, false, ◌&&◌,
  ltb, leb, List, [], ◌∷◌, ◌++◌, append_assoc, append-nil, length, drop, length-drop, drop_all,
  Bool-cases, ok, arith,
}
use my_net_core_proxy.Net.Buffer.{readable_bytes, max_size, add_size}
use my_net_core_proxy.Net.Buffer.Valid.{IsValid, contents}
use my_net_core_proxy.Net.Buffer.Contents.{contents-append}
use my_net_core_proxy.Net.Channel.{add_writing, is_writing}
use my_net_core_proxy.Net.EventLoop.{Epoll, runs_now, enqueue}
use my_net_core_proxy.Net.EventLoop.Registration.{update_channel_lem}
use my_net_core_proxy.Net.EventLoop.Watch.{enable_writing, update}
use my_net_core_proxy.Net.TcpConnection.{
  TcpConnection, Environment, Hook, high_water_mark_callback, hooks, invoke, with_watch,
  run_in_loop, handle_close,
}
use my_net_core_proxy.Net.TcpConnection.Io.{
  signal_high_water, watch_writing, buffer_rest, finish_send,
}
use my_net_core_proxy.Net.TcpConnection.Closing.{IsQuiet}
use my_net_core_proxy.Net.TcpConnection.Kept.{stream, Kept, marks-Kept, Kept-trans, Buffered}

module _ (kernel : Epoll) (env : Environment kernel.State) where
  -- The same bytes sent and the same bytes waiting, and what sending leaves alone.
  abbrev pub SameOutput : TcpConnection kernel.State → TcpConnection kernel.State → Type 0
  SameOutput c c' = (c'.sent ≡ c.sent) × (c'.output_buffer ≡ c.output_buffer) × Kept c c'

  pub run_in_loop_quiet :
      (h : Hook) (c : TcpConnection kernel.State)
      → IsQuiet kernel env h
      → (c' : TcpConnection kernel.State) × (run_in_loop kernel env
            (hooks h)
            (invoke kernel env h)
            c
          ≡ ok c')
        × SameOutput c c'
  unfolding run_in_loop invoke
  run_in_loop_quiet h c q = elim (Bool-cases (runs_now c.watch.loop)) [
    | inl e ↦
        let c' : TcpConnection kernel.State = record c { calls = c.calls ++ h ∷ [] } in
        (c', ground (arith, q c'), (refl, refl, marks-Kept c c.output_buffer c'.calls c.sent))
    | inr e ↦ (
      record c { watch = record c.watch { loop = enqueue c.watch.loop (hooks h) } },
      ground arith,
      (
        refl,
        refl,
        record {
          same_state = refl;
          same_thread = unfold enqueue in refl;
          same_callbacks = refl;
          same_input = refl;
        },
      ),
    )
  ]

  signal_high_water_lem :
      (old_len remaining : ℕ) (c : TcpConnection kernel.State)
      → IsQuiet kernel env high_water_mark_callback
      → (c' : TcpConnection kernel.State) × (signal_high_water kernel env old_len remaining c
          ≡ ok c')
        × SameOutput c c'
  unfolding signal_high_water
  signal_high_water_lem old_len remaining c q =
      elim (Bool-cases (
        leb c.high_water_mark (add_size old_len remaining)
        && (ltb old_len c.high_water_mark && c.has high_water_mark_callback))) [
          | inl e ↦ rw (e, signal_high_water) (run_in_loop_quiet high_water_mark_callback c q)
          | inr e ↦ (
            c,
            rw (e, signal_high_water) refl,
            (refl, refl, marks-Kept c c.output_buffer c.calls c.sent),
          )
        ]

  watch_writing-SameOutput :
      (c : TcpConnection kernel.State) → SameOutput c (watch_writing kernel env c)
  unfolding watch_writing with_watch enable_writing update
  watch_writing-SameOutput c =
      let there : (enable_writing kernel c.watch).loop.in_loop_thread
          ≡ c.watch.loop.in_loop_thread =
        ap (λ l. l.in_loop_thread)
          (update_channel_lem kernel c.watch.loop (add_writing c.watch.channel)).2 in
      elim (Bool-cases (is_writing c.watch.channel)) [
        | inl e ↦ rw (e, watch_writing) (refl, refl, marks-Kept c c.output_buffer c.calls c.sent)
        | inr e ↦
            rw (e, watch_writing)
              (
                refl,
                refl,
                record {
                  same_state = refl;
                  same_thread = there;
                  same_callbacks = refl;
                  same_input = refl;
                },
              )
      ]

  buffer_rest_lem :
      (message : List ℕ) (remaining : ℕ) (c : TcpConnection kernel.State)
      → IsQuiet kernel env high_water_mark_callback
      → IsValid c.output_buffer
      → c.output_buffer.writer_index + length message ≤ max_size
      → (c' : TcpConnection kernel.State) × (buffer_rest kernel env message remaining c ≡ ok c')
        × (c'.sent ≡ c.sent)
        × (contents c'.output_buffer
            ≡ contents c.output_buffer ++ drop (length message - remaining) message)
        × Buffered (length message) c c'
  unfolding buffer_rest
  buffer_rest_lem message remaining c q v h =
      let rest : List ℕ = drop (length message - remaining) message in
      let old : ℕ = readable_bytes c.output_buffer in
      let (output', e, v', bytes, end) =
        contents-append {b = c.output_buffer} rest v
          (omega (arith, length-drop (length message - remaining) message)) in
      let c1 : TcpConnection kernel.State = record c { output_buffer = output' } in
      let (c2, e2, same) = signal_high_water_lem old remaining c1 q in
      let same' = watch_writing-SameOutput c2 in
      let out : (watch_writing kernel env c2).output_buffer ≡ output' = same'.1 ∙ same.1 in
      (
        watch_writing kernel env c2,
        ground (arith, e, e2),
        same'.0 ∙ same.0,
        ap contents out ∙ bytes,
        record {
          valid = subst IsValid (sym out) v';
          front = omega (
            arith,
            end,
            ap (λ b. b.writer_index) out,
            length-drop (length message - remaining) message,
          );
          kept = Kept-trans (marks-Kept c output' c.calls c.sent) (Kept-trans same.2 same'.2);
        },
      )

  pub finish_send_lem :
      (message : List ℕ) (remaining : ℕ) (c : TcpConnection kernel.State)
      → IsQuiet kernel env high_water_mark_callback
      → IsValid c.output_buffer
      → c.output_buffer.writer_index + length message ≤ max_size
      → (c' : TcpConnection kernel.State) × (finish_send kernel env message (remaining, false, c)
          ≡ ok c')
        × (stream c' ≡ stream c ++ drop (length message - remaining) message)
        × Buffered (length message) c c'
  unfolding finish_send
  finish_send_lem message zero c q v h = (
    c,
    refl,
    sym (append-nil (stream c))
        ∙ ap (◌++◌ (stream c)) (sym (drop_all (length message - 0) message (omega arith))),
    record { valid = v; front = omega arith; kept = marks-Kept c c.output_buffer c.calls c.sent },
  )
  finish_send_lem message (suc r) c q v h =
      let (c', e, same, bytes, v') = buffer_rest_lem message (suc r) c q v h in
      (
        c',
        ground (arith, e),
        ap₂ ◌++◌ same bytes
            ∙ sym (
                append_assoc c.sent (contents c.output_buffer)
                  (drop (length message - suc r) message)),
        v',
      )

  pub finish_send_fault :
      (message : List ℕ) (remaining : ℕ) (c : TcpConnection kernel.State)
      → finish_send kernel env message (remaining, true, c) ≡ handle_close kernel env c
  unfolding finish_send
  finish_send_fault message remaining c = refl
