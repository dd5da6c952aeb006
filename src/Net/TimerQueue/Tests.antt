-- ===== src/Net/TimerQueue/Tests.antt =====
-- Runs of the timer queue, and each theorem at a concrete queue.
use my_net_core_proxy.Prelude.{
  ℕ, ◌≡◌, refl, sym, ap, subst, ◌⊎◌, true, false, if◌then◌else◌, none, List, [], ◌∷◌, ◌++◌, Result,
  ok, fault, overflow, dangling, arith, ◌+◌, ◌*◌, ◌≤◌, ◌<◌,
}
use my_net_core_proxy.Prelude.Pairs.{pair_key, pair_eq}
use my_net_core_proxy.Prelude.Sets.{set_insert, contains, before, from}
use my_net_core_proxy.Net.Timestamp.{Seconds, add_time, valid}
use my_net_core_proxy.Net.Timer.{TimerId, restart}
use my_net_core_proxy.Net.TimerQueue.{
  TimerQueue, Timespec, Entry, empty, add_timer, add_timer_in_loop, new_timer, cancel_in_loop,
  get_expired, handle_read, destroy, how_much_time_from_now,
}
use my_net_core_proxy.Net.TimerQueue.Invariant.{Inv, empty-Inv}
use my_net_core_proxy.Net.TimerQueue.Steps.{add_timer-Inv}
use my_net_core_proxy.Net.EventLoop.{runs_now, enqueue}
use my_net_core_proxy.Net.EventLoop.Rounds.{do_pending_functors}
use my_net_core_proxy.Net.TimerQueue.Posting
use my_net_core_proxy.Net.TimerQueue.Posting.Calls.{
  Call, adds_timer, posts_timer, returns_id, cancels_timer, runs_tasks, fires, Calling, run,
}
use my_net_core_proxy.Net.TimerQueue.Posting.Threads.{RunOutcome, run-Inv}
use my_net_core_proxy.Net.TimerQueue.Posting.{TimerLoop, functors_end, run_task, cancel-add_timer}
use my_net_core_proxy.Net.TimerQueue.Cancel.{cancel_in_loop-Inv}
use my_net_core_proxy.Net.TimerQueue.Expired.{Addresses, AllBy, AllAfter, get_expired_lem}
use my_net_core_proxy.Net.TimerQueue.Running.{done, Armed, handle_read-Inv}
use my_net_core_proxy.Net.TimerQueue.Destroy.{destroy_lem}
use my_net_core_proxy.Net.TimerQueue.Remaining.{how_much_time_from_now_lem}

abbrev once : Seconds
once = record { is_positive = false; micro_seconds = 0 }

abbrev each_second : Seconds
each_second = record { is_positive = true; micro_seconds = 1000000 }

abbrev nothing : TimerQueue ℕ
nothing = empty

-- The queue that an operation leaves.
abbrev left_by : Result (TimerId × TimerQueue ℕ) → TimerQueue ℕ
left_by (ok (id, q)) = q
left_by (fault f) = nothing

-- A timer at the address 64 that repeats.
abbrev one : TimerQueue ℕ
one = left_by (add_timer 0 64 7 5000 each_second nothing)

one-Inv : Inv one []
one-Inv =
    let (id, q, e, v, _, _) = add_timer-Inv nothing [] 0 64 7 5000 each_second empty-Inv refl in
    subst (λ k. Inv k []) (sym (ap left_by e)) v

one_timers : one.timers ≡ (5000, 64) ∷ []
unfolding add_timer set_insert
one_timers = refl

one_heap : one.heap 32 ≡ none
unfolding add_timer
one_heap = refl

one_idle : one.calling_expired_timers ≡ false
unfolding add_timer
one_idle = refl

-- Another at the address 32 that runs once.
abbrev two : TimerQueue ℕ
two = left_by (add_timer 0 32 8 9000 once one)

two-Inv : Inv two []
two-Inv =
    let (id, q, e, v, _, _) = add_timer-Inv one [] 0 32 8 9000 once one-Inv one_heap in
    subst (λ k. Inv k []) (sym (ap left_by e)) v

two_timers : two.timers ≡ (5000, 64) ∷ (9000, 32) ∷ []
unfolding add_timer set_insert
two_timers = refl

-- The queue that a run of the callbacks leaves.
abbrev after : Result (TimerQueue ℕ) → List Entry
after (ok q) = q.timers
after (fault f) = []

-- A callback that does nothing.
abbrev idle : ℕ → TimerQueue ℕ → Result (TimerQueue ℕ)
idle f q = ok q

-- The first one runs and waits again, a second later.
run_first : after (handle_read idle 6000 6100 two) ≡ (9000, 32) ∷ (1006000, 64) ∷ []
unfolding handle_read add_timer before set_insert contains restart add_time from valid
run_first = refl

-- Both run, and the second one is deleted.
run_both : after (handle_read idle 9000 9100 two) ≡ (1009000, 64) ∷ []
unfolding handle_read add_timer before set_insert contains restart add_time from valid
run_both = refl

two-Addresses : Addresses two.timers
unfolding add_timer set_insert
two-Addresses = omega arith

get_expired_lem_example :
    (expired : List Entry) × (q' : TimerQueue ℕ) × (get_expired 6000 two ≡ ok (expired, q'))
    × (expired ++ q'.timers ≡ two.timers)
    × AllBy 6000 expired
    × AllAfter 6000 q'.timers
get_expired_lem_example = get_expired_lem 6000 two two-Inv two-Addresses

cancel_in_loop-Inv_example :
    (q' : TimerQueue ℕ) × (cancel_in_loop (record { timer = 64; sequence = 0 }) two ≡ ok q')
    × Inv q' []
    × ((r s : ℕ)
        → contains q'.active_timers (r, s)
          ≡ (if pair_eq (64, 0) (r, s) then false else contains two.active_timers (r, s)))
    × ((p : ℕ) → two.heap p ≡ none → q'.heap p ≡ none)
    × ((contains two.active_timers (64, 0) ≡ true)
        ⊎ ((q'.timers ≡ two.timers)
            × ((two.calling_expired_timers ≡ false)
                ⊎ (contains q'.canceling_timers (64, 0) ≡ true))))
cancel_in_loop-Inv_example = cancel_in_loop-Inv two [] (record { timer = 64; sequence = 0 }) two-Inv

handle_read-Inv_example :
    ((q' : TimerQueue ℕ) × (handle_read idle 6000 6100 two ≡ ok q') × Inv q' [] × Armed 6100 q')
    ⊎ (handle_read idle 6000 6100 two ≡ fault overflow)
handle_read-Inv_example = handle_read-Inv idle 6000 6100 two (λ f q. (q, refl, done)) two-Inv

destroy_lem_example : (q' : TimerQueue ℕ) × (destroy two ≡ ok q') × ((p : ℕ) → q'.heap p ≡ none)
destroy_lem_example = destroy_lem two two-Inv

abbrev next : Timespec
next = how_much_time_from_now 2500000 1000000

how_much_time_from_now_lem_example :
    (next.tv_nsec < 1000000000)
    × (100000 ≤ next.tv_sec * 1000000000 + next.tv_nsec)
    × (2500000 * 1000 ≤ 1000000 * 1000 + (next.tv_sec * 1000000000 + next.tv_nsec))
    × ((next.tv_sec * 1000000000 + next.tv_nsec ≤ 100000)
        ⊎ (next.tv_sec * 1000000000 + next.tv_nsec + 1000000 * 1000 ≡ 2500000 * 1000))
how_much_time_from_now_lem_example = how_much_time_from_now_lem 2500000 1000000

-- The loop while it calls the last functor of its queue, with the timer at the address 64.
abbrev in_functor : TimerLoop ℕ ℕ
in_functor = record {
  loop = record {
    epoll = 0;
    looping = true;
    quitting = false;
    in_loop_thread = true;
    calling_pending_functors = true;
    pending_functors = [];
    wakeups = 0;
  };
  rest = one;
}

cancel-add_timer_example :
    (id : TimerId) × (w1 w2 w3 : TimerLoop ℕ ℕ) × (Posting.add_timer 0 32 8 9000 once in_functor
      ≡ ok (id, w1))
    × (Posting.cancel 0 id (functors_end w1) ≡ ok w2)
    × (do_pending_functors (run_task 0) (λ (e : ℕ) v. ok v) w2 ≡ ok w3)
    × (contains w3.rest.active_timers (id.timer, id.sequence) ≡ true)
    × Inv w3.rest []
cancel-add_timer_example =
    cancel-add_timer 0 32 8 9000 once in_functor refl refl refl one-Inv one_idle one_heap

abbrev calling : Calling ℕ ℕ
calling = record {
  worker = record {
    loop = record in_functor.loop { calling_pending_functors = false };
    rest = nothing;
  };
  unread = [];
}

-- Two timers of other threads, one of which returns before the tasks run and is cancelled, one of the
-- loop's, and a round of handleRead while a third one of another thread waits as a task.
abbrev traffic : List (Call ℕ)
traffic =
    posts_timer 0 64 7 5000 once
    ∷ posts_timer 0 32 8 9000 once
    ∷ returns_id 64 0
    ∷ cancels_timer false 0 (record { timer = 64; sequence = 0 })
    ∷ runs_tasks 1
    ∷ adds_timer 2 64 9 7000 once
    ∷ posts_timer 2 16 9 7000 once
    ∷ fires 8000 8001
    ∷ returns_id 32 1
    ∷ []

run-Inv_example : RunOutcome idle traffic calling
run-Inv_example =
    run-Inv idle traffic (record in_functor.loop { calling_pending_functors = false })
      (λ f q. (q, refl, done)) refl refl

-- A timer that has run before the call that posted it returns.
late_return :
    run idle
      (posts_timer 0 64 7 5000 once ∷ runs_tasks 1 ∷ fires 6000 6001 ∷ returns_id 64 0 ∷ [])
      calling
    ≡ fault dangling
unfolding run handle_read runs_now enqueue Posting.post_timer do_pending_functors add_timer_in_loop
    new_timer before set_insert from
late_return = refl
