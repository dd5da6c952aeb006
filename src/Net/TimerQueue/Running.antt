-- ===== src/Net/TimerQueue/Running.antt =====
-- net/timer_queue.cpp: handleRead, with callbacks that add and cancel timers as they like.
use my_net_core_proxy.Prelude.{
  ℕ, ◌+◌, ◌^◌, overflow, subst, ◌≡◌, refl, ap, ◌⊎◌, inl, inr, true, false, not, ◌&&◌, ltb,
  Bool-cases, none, some, List, [], ◌∷◌, ◌++◌, Result, ok, fault, arith,
}
use my_net_core_proxy.Prelude.Pairs.{pair_key}
use my_net_core_proxy.Prelude.Sets.{contains}
use my_net_core_proxy.Net.Timer.{Timer, TimerId, restart}
use my_net_core_proxy.Net.Timestamp.{Seconds, add_time, valid}
use my_net_core_proxy.Net.TimerQueue.{
  TimerQueue, Entry, delete, add_timer, cancel_in_loop, reset_timerfd,
}
use my_net_core_proxy.Net.TimerQueue.{
  run_expired, reset_one, reset_all, reset, set_next_alarm, handle_read, how_much_time_from_now,
}
use my_net_core_proxy.Net.TimerQueue.Invariant.{pointer_in, Inv, load_lem, inserted, inserted-Inv}
use my_net_core_proxy.Net.TimerQueue.Ownership.{touched, touched_self, restarted-Inv, deleted-Inv}
use my_net_core_proxy.Net.TimerQueue.Steps.{unaffected, insert_lem, add_timer-Inv}
use my_net_core_proxy.Net.TimerQueue.Cancel.{cancel_in_loop-Inv}
use my_net_core_proxy.Net.TimerQueue.Expired.{swapped, pointer_in-append, get_expired-Inv}

-- What a run of calls makes of a queue: timers are added at free addresses, and cancelled by any id.
pub data Acts {F : Type 0} (q : TimerQueue F) : TimerQueue F → Type 0 where
  done : Acts q q
  adds :
      {q1 q2 : TimerQueue F} {id : TimerId}
      → Acts q q1
      → (clock p : ℕ) (cb : F) (when : ℕ) (interval : Seconds) → q1.heap p ≡ none
      → add_timer clock p cb when interval q1 ≡ ok (id, q2)
      → Acts q q2
  cancels :
      {q1 q2 : TimerQueue F} → Acts q q1 → (id : TimerId) → cancel_in_loop id q1 ≡ ok q2 → Acts q q2

module _ {F : Type 0} where
  Acts-Inv : {q q' : TimerQueue F} {out : List Entry} → Inv q out → Acts q q' → Inv q' out
  Acts-Inv v done = v
  Acts-Inv {q' = q2} {out = out} v (adds {q1 = q1} r clock p cb when interval free e) =
      let (id, q3, e', v', _, _) =
        add_timer-Inv q1 out clock p cb when interval (Acts-Inv v r) free in
      let same : q3 ≡ q2 = cc in subst (λ k. Inv k out) same v'
  Acts-Inv {q' = q2} {out = out} v (cancels {q1 = q1} r id e) =
      let (q3, e', v', _, _, _) = cancel_in_loop-Inv q1 out id (Acts-Inv v r) in
      let same : q3 ≡ q2 = cc in subst (λ k. Inv k out) same v'

  -- A callback returns, and does no more to the queue than such calls.
  abbrev pub Behaves : (F → TimerQueue F → Result (TimerQueue F)) → Type 0
  Behaves run = (f : F) (q : TimerQueue F) → (q' : TimerQueue F) × (run f q ≡ ok q') × Acts q q'

  run_expired-Inv :
      (run : F → TimerQueue F → Result (TimerQueue F)) (es : List Entry) (q : TimerQueue F)
      (out : List Entry)
      → Behaves run
      → Inv q out
      → ((p : ℕ) → pointer_in p es ≡ true → pointer_in p out ≡ true)
      → (q' : TimerQueue F) × (run_expired run es q ≡ ok q') × Inv q' out
  unfolding run_expired pointer_in
  run_expired-Inv run [] q out b v among = (q, refl, v)
  run_expired-Inv run ((e, p) ∷ es) q out b v among =
      let (t, at, _) = v.held p (among p (ground arith)) in
      let (q1, ran, acts) = b t.callback q in
      let (q2, rest, v2) =
        run_expired-Inv run es q1 out b (Acts-Inv v acts) (λ r h. among r (ground (arith, h))) in
      (q2, ground (arith, load_lem q p t at, ran, rest), v2)

  -- A timer that ran waits again or is deleted, unless its next expiration overflows.
  reset_one-Inv :
      (now e p : ℕ) (out : List Entry) (q : TimerQueue F)
      → Inv q ((e, p) ∷ out)
      → ((q' : TimerQueue F) × (reset_one now p q ≡ ok q') × Inv q' out)
        ⊎ (reset_one now p q ≡ fault overflow)
  unfolding reset_one delete touched restart add_time pointer_in
  reset_one-Inv now e p out q v =
      let (t, at, _) = v.held p (ground arith) in
      elim (Bool-cases (t.repeat && not (contains q.canceling_timers (p, t.sequence)))) [
        | inr once ↦
            inl (touched q p none, ground (arith, load_lem q p t at, once), deleted-Inv q out e p v)
        | inl again ↦ elim (Bool-cases (ltb (now + t.interval.micro_seconds) (2 ^ 63))) [
          | inr late ↦ inr (ground (arith, load_lem q p t at, again, late))
          | inl soon ↦
              let t' : Timer F = record t { expiration = now + t.interval.micro_seconds } in
              let q1 : TimerQueue F = touched q p (some t') in
              let v1 : Inv q1 ((e, p) ∷ out) =
                restarted-Inv q ((e, p) ∷ out) p t t' v (ground arith) at refl in
              inl (
                inserted q1 p t',
                ground (
                  arith,
                  load_lem q p t at,
                  again,
                  soon,
                  insert_lem q1 p t' (touched_self q p (some t')),
                ),
                inserted-Inv q1 out e p t' v1 (touched_self q p (some t')),
              )
        ]
      ]

  reset_all-Inv :
      (es out : List Entry) (now : ℕ) (q : TimerQueue F)
      → Inv q (es ++ out)
      → ((q' : TimerQueue F) × (reset_all es now q ≡ ok q') × Inv q' out)
        ⊎ (reset_all es now q ≡ fault overflow)
  unfolding reset_all
  reset_all-Inv [] out now q v = inl (q, refl, v)
  reset_all-Inv ((e, p) ∷ es) out now q v = elim (reset_one-Inv now e p (es ++ out) q v) [
    | inr over ↦ inr (ground (arith, over))
    | inl (q1, one, v1) ↦ elim (reset_all-Inv es out now q1 v1) [
      | inr over ↦ inr (ground (arith, one, over))
      | inl (q2, rest, v2) ↦ inl (q2, ground (arith, one, rest), v2)
    ]
  ]

  -- No timer waits, or the descriptor is set to the first one, which has a valid expiration, or that
  -- has none.
  abbrev pub Armed : ℕ → TimerQueue F → Type 0
  Armed clock q =
      (q.timers ≡ [])
      ⊎ ((e p : ℕ) × (rest : List Entry) × (q.timers ≡ (e, p) ∷ rest)
          × ((e ≡ 0) ⊎ (q.alarm ≡ some (how_much_time_from_now e clock))))

  set_next_alarm-Inv :
      (clock : ℕ) (q : TimerQueue F) (xs out : List Entry)
      → q.timers ≡ xs
      → Inv q out
      → (q' : TimerQueue F) × (set_next_alarm clock q ≡ ok q') × Inv q' out × Armed clock q'
  unfolding set_next_alarm reset_timerfd valid contains
  set_next_alarm-Inv clock q [] out e v = (q, ground (arith, e), v, inl e)
  set_next_alarm-Inv clock q ((when, p) ∷ rest) out e v =
      let (t, at, same, _) = v.linked when p (rw e (ground arith)) in
      elim (Bool-cases (ltb 0 t.expiration)) [
        | inl later ↦
            let q' : TimerQueue F = reset_timerfd q t.expiration clock in
            (
              q',
              ground (arith, e, load_lem q p t at, later),
              unaffected q out q.calling_expired_timers q.canceling_timers q.num_created q'.alarm v,
              inr (when, p, rest, e, inr (ap (λ k. some (how_much_time_from_now k clock)) same)),
            )
        | inr never ↦ (
          q,
          ground (arith, e, load_lem q p t at, never),
          v,
          inr (when, p, rest, e, inl (ground (arith, same, never))),
        )
      ]

  -- While timers wait to be added, they stay out.
  pub handle_read_out :
      (run : F → TimerQueue F → Result (TimerQueue F)) (now clock : ℕ) (q : TimerQueue F)
      (out : List Entry)
      → Behaves run
      → Inv q out
      → ((q' : TimerQueue F) × (handle_read run now clock q ≡ ok q') × Inv q' out × Armed clock q')
        ⊎ (handle_read run now clock q ≡ fault overflow)
  unfolding handle_read reset
  handle_read_out run now clock q out b v =
      let q0 : TimerQueue F = record q { alarm = none } in
      let (expired, q1, got, _, _, v1) =
        get_expired-Inv now q0 out
          (unaffected q out q.calling_expired_timers q.canceling_timers q.num_created none v) in
      let q2 : TimerQueue F = record q1 { calling_expired_timers = true; canceling_timers = [] } in
      let (q3, ran, v3) =
        run_expired-Inv run expired q2 (out ++ expired) b
          (unaffected q1 (out ++ expired) true [] q1.num_created q1.alarm v1)
          (λ p h. ground (arith, h, pointer_in-append p out expired)) in
      let q4 : TimerQueue F = record q3 { calling_expired_timers = false } in
      let v4 : Inv q4 (expired ++ out) =
        swapped q4 out expired
          (unaffected q3 (out ++ expired) false q3.canceling_timers q3.num_created q3.alarm v3) in
      elim (reset_all-Inv expired out now q4 v4) [
        | inr over ↦ inr (ground (arith, got, ran, over))
        | inl (q5, all, v5) ↦
            let (q6, set, v6, armed) = set_next_alarm-Inv clock q5 q5.timers out refl v5 in
            inl (q6, ground (arith, got, ran, all, set), v6, armed)
      ]

  -- On a queue that satisfies the invariant, where each callback returns and does no more to the
  -- queue than add timers at free addresses and cancel timers by any ids, handleRead uses no
  -- timer that does not live: it succeeds, the two sets and the living timers agree again, and
  -- the descriptor is set to the first expiration unless nothing waits or that expiration is 0;
  -- or an expiration overflows.
  pub handle_read-Inv :
      (run : F → TimerQueue F → Result (TimerQueue F)) (now clock : ℕ) (q : TimerQueue F)
      → Behaves run
      → Inv q []
      → ((q' : TimerQueue F) × (handle_read run now clock q ≡ ok q') × Inv q' [] × Armed clock q')
        ⊎ (handle_read run now clock q ≡ fault overflow)
  handle_read-Inv run now clock q b v = handle_read_out run now clock q [] b v
