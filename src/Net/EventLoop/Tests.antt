-- ===== src/Net/EventLoop/Tests.antt =====
-- Runs of the loop's registrations, and each theorem at a concrete channel.
use my_net_core_proxy.Prelude.{
  ℕ, zero, suc, ◌≡◌, refl, sym, true, false, List, [], ◌∷◌, ◌++◌, append-nil, if◌then◌else◌, Result,
  ok, fault, assertion, arith,
}
use my_net_core_proxy.Net.Channel.{new, add_reading, set_index, is_none_event, drop_all}
use my_net_core_proxy.Net.EventLoop.{
  EventLoop, runs_now, enqueue, update_channel, remove_channel, is_minus_one,
}
use my_net_core_proxy.Net.EventLoop.Watch.{Watch, update, enable_reading, disable_all, remove}
use my_net_core_proxy.Net.EventLoop.Table.{State, nothing, table, ctl, ctl_entry, set}
use my_net_core_proxy.Net.EventLoop.Rounds.{
  Worker, Posts, all_posts, do_pending_functors, do_pending_functors_lem,
}
use my_net_core_proxy.Net.EventLoop.Registration.{
  Registered, disables_all, removes, run, step, run-Registered,
}

abbrev idle : EventLoop State ℕ
idle = record {
  epoll = nothing;
  looping = true;
  quitting = false;
  in_loop_thread = true;
  calling_pending_functors = false;
  pending_functors = [];
  wakeups = 0;
}

-- Descriptor 7, read by the loop.
abbrev reading : Watch State ℕ
reading = enable_reading table (record { channel = new 7; loop = idle })

reading-Registered : Registered table reading 7
unfolding enable_reading update update_channel ctl ctl_entry set add_reading
reading-Registered = record { same_fd = refl; no_index = refl; watched = (1, refl) }

abbrev removed : Watch State ℕ
removed = disable_all table reading

run-removed : run table reading (disables_all ∷ removes ∷ []) ≡ ok removed
unfolding run step disable_all remove enable_reading update update_channel remove_channel
    is_minus_one set_index is_none_event drop_all add_reading ctl
run-removed = refl

run-Registered_example : Registered table removed 7
run-Registered_example =
    run-Registered table reading removed 7 (disables_all ∷ removes ∷ []) reading-Registered
      run-removed

-- A task is a number; one that is not 0 posts the number before it through `runInLoop`.
posts : ℕ → List ℕ
posts zero = []
posts (suc n) = n ∷ []

body : ℕ → Worker State ℕ (List ℕ) → Result (Worker State ℕ (List ℕ))
body zero w = ok (record w { rest = w.rest ++ 0 ∷ [] })
body (suc n) w =
    if runs_now w.loop
    then fault assertion
    else ok (record w { loop = enqueue w.loop n; rest = w.rest ++ suc n ∷ [] })

abbrev no_event : ℕ → Worker State ℕ (List ℕ) → Result (Worker State ℕ (List ℕ))
no_event e w = ok w

body-Posts : Posts body no_event posts
unfolding body posts enqueue runs_now
body-Posts zero w h =
    (record w { rest = w.rest ++ 0 ∷ [] }, refl, sym (append-nil w.loop.pending_functors), h)
body-Posts (suc n) w h =
    (record w { loop = enqueue w.loop n; rest = w.rest ++ suc n ∷ [] }, ground (arith, h), refl, h)

abbrev busy : Worker State ℕ (List ℕ)
busy = record {
  loop = record idle { pending_functors = 2 ∷ 0 ∷ 5 ∷ []; looping = false };
  rest = [];
}

do_pending_functors_lem_example :
    (w' : Worker State ℕ (List ℕ)) × (do_pending_functors body no_event busy ≡ ok w')
    × (w'.loop.pending_functors ≡ 1 ∷ 4 ∷ [])
    × (w'.loop.calling_pending_functors ≡ false)
unfolding all_posts posts
do_pending_functors_lem_example = do_pending_functors_lem body no_event posts body-Posts busy
