-- ===== src/Net/TcpConnection/Crossing.antt =====
-- net/tcp_connection.cpp with net/event_loop.cpp: calls of another thread, and the round of doPendingFunctors
-- that runs what they posted. A task of the layer above is a parameter.
use my_net_core_proxy.Prelude.{
  ℕ, ◌+◌, ◌≤◌, ◌≡◌, refl, sym, ◌∙◌, ap, Bool, true, false, List, [], ◌∷◌, ◌++◌, append_assoc,
  append-nil, joined, length, length-append, map, Result, ok, ◌>>=◌, arith,
}
use my_net_core_proxy.Net.Buffer.{max_size}
use my_net_core_proxy.Net.Buffer.Valid.{IsValid}
use my_net_core_proxy.Net.EventLoop.{Epoll, runs_now, enqueue}
use my_net_core_proxy.Net.TcpConnection.{
  TcpConnection, Environment, Task, connected, hooks, sends, shuts_down, starts_read, stops_read,
  write_complete_callback, high_water_mark_callback, invoke, run_in_loop, shutdown_in_loop,
  start_read_task, stop_read_task,
}
use my_net_core_proxy.Net.TcpConnection.Closing.{IsQuiet}
use my_net_core_proxy.Net.TcpConnection.Io.{send, send_in_loop}
use my_net_core_proxy.Net.TcpConnection.Kept.{Takes, Open, stream}
use my_net_core_proxy.Net.TcpConnection.Stream.{send_in_loop_taken}

-- The connection as a thread sees it: whether that is the thread of its loop, and whether the queue
-- of tasks is being worked off.
abbrev pub seen_from : {St : Type 0} → Bool → TcpConnection St → TcpConnection St
seen_from here c = record c {
  watch = record c.watch { loop = record c.watch.loop { in_loop_thread = here } };
}

abbrev pub with_queue : {St : Type 0} → Bool → List Task → TcpConnection St → TcpConnection St
with_queue calling tasks c = record c {
  watch = record c.watch {
    loop = record c.watch.loop { calling_pending_functors = calling; pending_functors = tasks };
  };
}

module _ (kernel : Epoll) (env : Environment kernel.State)
    (above : Task → TcpConnection kernel.State → Result (TcpConnection kernel.State)) where
  -- The body of a task.
  unfoldable pub perform : Task → TcpConnection kernel.State → Result (TcpConnection kernel.State)
  perform (hooks h) c = invoke kernel env h c
  perform (sends message) c = send_in_loop kernel env message c
  perform shuts_down c = shutdown_in_loop kernel env c
  perform starts_read c = ok (start_read_task kernel env c)
  perform stops_read c = ok (stop_read_task kernel env c)
  perform t c = above t c

  unfoldable pub perform_all :
      List Task → TcpConnection kernel.State → Result (TcpConnection kernel.State)
  unfolding perform
  perform_all [] c = ok c
  perform_all (t ∷ tasks) c = do c' ← perform t c; perform_all tasks c'

  -- `doPendingFunctors` of the connection's loop.
  unfoldable pub drain : TcpConnection kernel.State → Result (TcpConnection kernel.State)
  unfolding perform_all
  drain c = do
    c' ← perform_all c.watch.loop.pending_functors (with_queue true [] c)
    ok (with_queue false c'.watch.loop.pending_functors c')

  -- The calls of `send` for the messages in turn.
  unfoldable pub send_each :
      List (List ℕ) → TcpConnection kernel.State → Result (TcpConnection kernel.State)
  send_each [] c = ok c
  send_each (message ∷ messages) c = do c' ← send kernel env message c; send_each messages c'

  send_each_lem :
      (messages : List (List ℕ)) (c : TcpConnection kernel.State)
      → c.watch.loop.in_loop_thread ≡ false
      → (n : ℕ) × (send_each messages c
          ≡ ok (record c {
            watch = record c.watch {
              loop = record c.watch.loop {
                pending_functors = c.watch.loop.pending_functors ++ map sends messages;
                wakeups = n;
              };
            };
          }))
  unfolding send_each send run_in_loop runs_now enqueue
  send_each_lem [] c away =
      (c.watch.loop.wakeups, ground (arith, append-nil c.watch.loop.pending_functors))
  send_each_lem (message ∷ messages) c away =
      let (n, rest) =
        send_each_lem messages
          (record c { watch = record c.watch { loop = enqueue c.watch.loop (sends message) } })
          away in
      (
        n,
        ground (
          arith,
          away,
          rest,
          append_assoc c.watch.loop.pending_functors (sends message ∷ []) (map sends messages),
        ),
      )

  module _ (takes : Takes env.write) (quiet_complete : IsQuiet kernel env write_complete_callback)
      (quiet_mark : IsQuiet kernel env high_water_mark_callback) (o : Open env.write) where
    perform_all-sends :
        (messages : List (List ℕ)) (c : TcpConnection kernel.State)
        → c.watch.loop.in_loop_thread ≡ true
        → c.state ≡ connected
        → IsValid c.output_buffer
        → c.output_buffer.writer_index + length (joined messages) ≤ max_size
        → (c' : TcpConnection kernel.State) × (perform_all (map sends messages) c ≡ ok c')
          × (stream c' ≡ stream c ++ joined messages)
    unfolding perform_all perform joined
    perform_all-sends [] c here up v room = (c, refl, sym (append-nil (stream c)))
    perform_all-sends (message ∷ messages) c here up v room =
        let total = length-append message (joined messages) in
        let (c1, sent, bytes, b) =
          send_in_loop_taken kernel env takes quiet_complete quiet_mark o message c here up v
            (omega (arith, total, room)) in
        let (c2, rest, bytes2) =
          perform_all-sends messages c1 (b.kept.same_thread ∙ here) (b.kept.same_state ∙ up) b.valid
            (omega (arith, b.front, total, room)) in
        (
          c2,
          ground (arith, sent, rest),
          bytes2
              ∙ ap (λ l. l ++ joined messages) bytes
              ∙ append_assoc (stream c) message (joined messages),
        )

    -- On a connected connection whose loop has no task waiting, with a valid output buffer that
    -- has room for all messages, a socket that takes no more than it is offered and no write of
    -- which fails for good, and callbacks that leave the connection alone: messages sent from
    -- another thread change nothing at first, and after the next doPendingFunctors in the loop's
    -- thread they stand whole and in order behind the bytes that were sent or wait.
    pub stream-drain :
        (messages : List (List ℕ)) (c : TcpConnection kernel.State)
        → c.watch.loop.pending_functors ≡ []
        → c.state ≡ connected
        → IsValid c.output_buffer
        → c.output_buffer.writer_index + length (joined messages) ≤ max_size
        → (c1 c2 : TcpConnection kernel.State) × (send_each messages (seen_from false c) ≡ ok c1)
          × (stream c1 ≡ stream c)
          × (drain (seen_from true c1) ≡ ok c2)
          × (stream c2 ≡ stream c ++ joined messages)
    unfolding drain
    stream-drain messages c idle up v room =
        let (n, posted) = send_each_lem messages (seen_from false c) refl in
        let c0 : TcpConnection kernel.State = record c {
          watch = record c.watch {
            loop = record c.watch.loop {
              in_loop_thread = true;
              calling_pending_functors = true;
              pending_functors = [];
              wakeups = n;
            };
          };
        } in
        let (c2, done, bytes) = perform_all-sends messages c0 refl up v room in
        (
          record c {
            watch = record c.watch {
              loop = record c.watch.loop {
                in_loop_thread = false;
                pending_functors = c.watch.loop.pending_functors ++ map sends messages;
                wakeups = n;
              };
            };
          },
          with_queue false c2.watch.loop.pending_functors c2,
          posted,
          refl,
          ground (arith, idle, done),
          bytes,
        )
