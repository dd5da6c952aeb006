-- ===== src/App/LoadBalancerHandler/Relaying.antt =====
-- app/load_balancer_handler.cpp: what the handler hands to the backend.
use my_net_core_proxy.Prelude.{
  ◌≡◌, refl, ◌⊎◌, inl, inr, true, some, [], ◌++◌, ok, fault, overflow, arith,
}
use my_net_core_proxy.Net.Buffer.{retrieve_all}
use my_net_core_proxy.Net.Buffer.Valid.{IsValid, contents}
use my_net_core_proxy.Net.Buffer.Strings.{retrieve_all_as_string_lem}
use my_net_core_proxy.Net.EventLoop.{Epoll}
use my_net_core_proxy.Net.EventLoop.Timing.{Timers, Moment}
use my_net_core_proxy.Net.TcpConnection.{TcpConnection, Environment}
use my_net_core_proxy.Net.TcpConnection.Kept.{stream}
use my_net_core_proxy.App.Backend.{on_loop_of}
use my_net_core_proxy.App.Backend.Sending.{Ready, Plain, Refuses, send_lem}
use my_net_core_proxy.App.LoadBalancerHandler.{
  LoadBalancerHandler, Timeout, on_message, relay_request,
}
use my_net_core_proxy.App.LoadBalancerHandler.Timeouts.{Replaced, watched, refresh_lem}

module _ (kernel : Epoll) (front_env back_env : Environment kernel.State)
    (timers : Timers Timeout) where
  open timers use {Queue}

  -- With a backend that is connected, valid timers, a free address for the new one, a valid input
  -- buffer, and a backend in the loop's thread with room, onMessage moves the waiting bytes, all
  -- and in order, behind those that the backend was sent, empties the input, and puts a new idle
  -- timer in place of the timer that watched the connection, every other timer waiting as before,
  -- provided the kernel takes no more than it is offered and the callbacks leave the backend
  -- alone; or the first write of the bytes fails for good, or the expiration overflows.
  pub contents-on_message :
      (m : Moment) (r : LoadBalancerHandler kernel.State Queue) (b : TcpConnection kernel.State)
      → timers.IsValid r.queue
      → timers.IsFree r.queue m.address
      → r.backend_conn ≡ some b
      → r.backend_connected ≡ true
      → IsValid r.frontend.input_buffer
      → Plain kernel back_env
      → Ready kernel back_env (contents r.frontend.input_buffer) (on_loop_of r.frontend b)
      → ((r' : LoadBalancerHandler kernel.State Queue) × (b' : TcpConnection kernel.State)
          × (on_message kernel front_env back_env timers m r ≡ ok r')
          × (r'.backend_conn ≡ some b')
          × (stream b' ≡ stream b ++ contents r.frontend.input_buffer)
          × (contents r'.frontend.input_buffer ≡ [])
          × (r'.first_byte_received ≡ true)
          × timers.IsValid r'.queue
          × Replaced kernel front_env back_env timers
              (watched kernel front_env back_env timers r)
              r'.idle_timer_id
              r.queue
              r'.queue)
        ⊎ (Refuses kernel back_env (contents r.frontend.input_buffer)
            ⊎ (on_message kernel front_env back_env timers m r ≡ fault overflow))
  unfolding on_message relay_request
  contents-on_message m r b timers_valid free has up v p h =
      let (read, _, gone) = retrieve_all_as_string_lem {b = r.frontend.input_buffer} v in
      elim (refresh_lem kernel front_env back_env timers m r timers_valid free) [
        | inr late ↦ inr (inr (ground (arith, late)))
        | inl (id, q', done, valid', replaced) ↦
            elim (send_lem kernel back_env (contents r.frontend.input_buffer)
              (on_loop_of r.frontend b) p h) [
                | inr refusal ↦ inr (inl refusal)
                | inl (b', sent, bytes) ↦ inl (
                  record r {
                    first_byte_received = true;
                    idle_timer_id = id;
                    queue = q';
                    backend_conn = some b';
                    frontend =
                        on_loop_of b' (record r.frontend {
                          input_buffer = retrieve_all r.frontend.input_buffer;
                        });
                  },
                  b',
                  ground (arith, done, has, up, read, sent),
                  refl,
                  bytes,
                  gone,
                  refl,
                  valid',
                  replaced,
                )
              ]
      ]
