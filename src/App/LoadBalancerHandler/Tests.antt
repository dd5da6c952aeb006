-- ===== src/App/LoadBalancerHandler/Tests.antt =====
-- Each theorem on the handler at a concrete connection, with a timer queue.
use my_net_core_proxy.Prelude.{
  ◌≡◌, refl, sym, ap, subst, ◌⊎◌, true, false, none, some, [], ◌∷◌, Result, ok, fault, assertion,
  overflow, arith,
}
use my_net_core_proxy.Prelude.Pairs.{pair_key}
use my_net_core_proxy.Prelude.Sets.{set_insert, contains}
use my_net_core_proxy.Net.Buffer.Valid.{contents}
use my_net_core_proxy.Net.EventLoop.Table.{State, table}
use my_net_core_proxy.Net.EventLoop.Timing.{Timers, Moment, queue_timers, id_waits, once}
use my_net_core_proxy.Net.Timer
use my_net_core_proxy.Net.Timer.{TimerId}
use my_net_core_proxy.Net.TimerQueue
use my_net_core_proxy.Net.TimerQueue.{TimerQueue, add_timer}
use my_net_core_proxy.Net.TimerQueue.Invariant.{Inv, empty-Inv}
use my_net_core_proxy.Net.TimerQueue.Steps.{add_timer-Inv}
use my_net_core_proxy.Net.TcpConnection.{TcpConnection}
use my_net_core_proxy.Net.TcpConnection.Kept.{stream}
use my_net_core_proxy.App.Backend.Samples.{
  quiet, quiet-Plain, connection, empty, empty-IsValid, input, input-IsValid,
}
use my_net_core_proxy.App.Backend.Sending.{Refuses}
use my_net_core_proxy.App.LoadBalancer
use my_net_core_proxy.App.LoadBalancerHandler.{
  LoadBalancerHandler, Timeout, on_initial_timeout, on_message, on_close, reset_idle_timer,
}
use my_net_core_proxy.App.LoadBalancerHandler.Timeouts.{Replaced, on_close-reset_idle_timer}
use my_net_core_proxy.App.LoadBalancerHandler.Relaying.{contents-on_message}

abbrev loop_timers : Timers Timeout
loop_timers = queue_timers Timeout

abbrev nothing_waits : TimerQueue Timeout
nothing_waits = TimerQueue.empty

abbrev left_by : Result (TimerId × TimerQueue Timeout) → TimerQueue Timeout
left_by (ok (id, q)) = q
left_by (fault f) = nothing_waits

-- The queue with the timer for the first bytes.
abbrev one_waits : TimerQueue Timeout
one_waits = left_by (add_timer 0 64 on_initial_timeout 5000000 once nothing_waits)

one_waits-Inv : Inv one_waits []
one_waits-Inv =
    let (id, q, e, v, _, _) =
      add_timer-Inv nothing_waits [] 0 64 on_initial_timeout 5000000 once empty-Inv refl in
    subst (λ k. Inv k []) (sym (ap left_by e)) v

abbrev first_timer : TimerId
first_timer = record { timer = 64; sequence = 0 }

one_waits_now : id_waits one_waits first_timer ≡ true
unfolding add_timer set_insert contains
one_waits_now = refl

free_32 : one_waits.heap 32 ≡ none
unfolding add_timer
free_32 = refl

-- A handler whose backend is connected, before the first bytes.
abbrev handler : LoadBalancerHandler State (TimerQueue Timeout)
handler = record {
  frontend = connection 7 input;
  load_balancer = LoadBalancer.new;
  backend_conn = some (connection 8 empty);
  backend_connected = true;
  initial_timer_id = first_timer;
  idle_timer_id = Timer.null;
  first_byte_received = false;
  queue = one_waits;
}

abbrev later : Moment
later = record { now = 1000; clock = 1001; address = 32 }

contents-on_message_example :
    ((r' : LoadBalancerHandler State (TimerQueue Timeout)) × (b' : TcpConnection State)
      × (on_message table quiet quiet loop_timers later handler ≡ ok r')
      × (r'.backend_conn ≡ some b')
      × (stream b' ≡ 5 ∷ 6 ∷ [])
      × (contents r'.frontend.input_buffer ≡ [])
      × (r'.first_byte_received ≡ true)
      × Inv r'.queue []
      × Replaced table quiet quiet loop_timers first_timer r'.idle_timer_id one_waits r'.queue)
    ⊎ (Refuses table quiet (5 ∷ 6 ∷ [])
        ⊎ (on_message table quiet quiet loop_timers later handler ≡ fault overflow))
contents-on_message_example =
    contents-on_message table quiet quiet loop_timers later handler (connection 8 empty)
      one_waits-Inv free_32 refl refl input-IsValid quiet-Plain
      (record { up = refl; in_thread = refl; valid = empty-IsValid; room = omega arith })

on_close-reset_idle_timer_example :
    (reset_idle_timer table quiet quiet loop_timers later handler ≡ fault overflow)
    ⊎ ((r1 : LoadBalancerHandler State (TimerQueue Timeout)) × (reset_idle_timer table quiet quiet
            loop_timers later handler
          ≡ ok r1)
        × ((on_close table quiet quiet loop_timers r1 ≡ fault assertion)
            ⊎ ((r2 : LoadBalancerHandler State (TimerQueue Timeout)) × (on_close table quiet quiet
                    loop_timers r1
                  ≡ ok r2)
                × (id_waits r2.queue r1.idle_timer_id ≡ true))))
on_close-reset_idle_timer_example =
    on_close-reset_idle_timer table quiet quiet loop_timers later handler one_waits-Inv free_32 refl
      refl one_waits_now refl
