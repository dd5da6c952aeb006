-- ===== src/App/LoadBalancerHandler.antt =====
-- app/load_balancer_handler.h and app/load_balancer_handler.cpp: the handler with its frontend, its
-- backend, its two timers and the balancer that it asks. The queue of the loop's timers goes along; an
-- operation on it is done at the call, as it is in the loop's thread outside the queue of tasks.
pub mod Timeouts
pub mod Relaying
mod Tests
use my_net_core_proxy.Prelude.{
  ℕ, ◌*◌, Bool, true, false, not, ◌&&◌, ltb, if◌then◌else◌, Option, none, some, List, [], ◌∷◌,
  Result, ok, ◌>>=◌, ◌>>◌,
}
use my_net_core_proxy.Net.Buffer.{retrieve_all, readable_bytes, retrieve_all_as_string}
use my_net_core_proxy.Net.EventLoop.{Epoll, runs_now, enqueue}
use my_net_core_proxy.Net.EventLoop.Timing.{Timers, Moment}
use my_net_core_proxy.Net.InetAddress.{InetAddress}
use my_net_core_proxy.Net.Timer
use my_net_core_proxy.Net.Timer.{TimerId}
use my_net_core_proxy.Net.Timestamp.{Seconds}
use my_net_core_proxy.Net.TcpConnection.{
  TcpConnection, Environment, is_connected, connect_established_as_client, shutdown, start_read,
  stop_read, connects_backend, connection_callback, message_callback, write_complete_callback,
  close_callback,
}
use my_net_core_proxy.Net.TcpConnection.Setup
use my_net_core_proxy.Net.TcpConnection.Setup.{set_callback, set_high_water_mark_callback}
use my_net_core_proxy.Net.TcpConnection.Io.{send}
use my_net_core_proxy.App.Backend.{
  Connect, no_socket, connect_failed, socket_fd, on_loop_of, relay_mark, release,
}
use my_net_core_proxy.App.LoadBalancer.{LoadBalancer, get_next_backend}

-- What a timer of the handler calls.
pub data Timeout : Type 0 where
  on_initial_timeout on_idle_timeout : Timeout

pub record LoadBalancerHandler (St Q : Type 0) : Type 0 where
  pub frontend : TcpConnection St
  pub load_balancer : LoadBalancer InetAddress
  pub backend_conn : Option (TcpConnection St)
  pub backend_connected : Bool
  pub initial_timer_id : TimerId
  pub idle_timer_id : TimerId
  pub first_byte_received : Bool
  pub queue : Q

-- The constructor, for the connection that the handler is set for.
abbrev pub new :
    {St Q : Type 0} → LoadBalancer InetAddress → TcpConnection St → Q → LoadBalancerHandler St Q
new lb conn queue = record {
  frontend = conn;
  load_balancer = lb;
  backend_conn = none;
  backend_connected = false;
  initial_timer_id = Timer.null;
  idle_timer_id = Timer.null;
  first_byte_received = false;
  queue = queue;
}

-- `5.0` and `60.0`
abbrev pub initial_delay : Seconds
initial_delay = record { is_positive = true; micro_seconds = 5000000 }

abbrev pub idle_delay : Seconds
idle_delay = record { is_positive = true; micro_seconds = 60000000 }

module _ (kernel : Epoll) (front_env back_env : Environment kernel.State)
    (timers : Timers Timeout) where
  abbrev pub Handler : Type 0
  Handler = LoadBalancerHandler kernel.State timers.Queue

  -- `conn->shutdown()`
  unfoldable pub shut_frontend : Handler → Result Handler
  shut_frontend r = do f ← shutdown kernel front_env r.frontend; ok (record r { frontend = f })

  -- What the timers of the handler do.
  unfoldable pub time_out : Timeout → Handler → Result Handler
  unfolding shut_frontend
  time_out on_initial_timeout r = if not r.first_byte_received then shut_frontend r else ok r
  time_out on_idle_timeout r = shut_frontend r

  unfoldable pub reset_idle_timer : Moment → Handler → Result Handler
  reset_idle_timer m r = do
    q1 ← timers.stop r.idle_timer_id r.queue
    (id, q2) ← timers.after m idle_delay on_idle_timeout q1
    ok (record r { idle_timer_id = id; queue = q2 })

  -- The part of `onMessage` before it forwards.
  unfoldable pub refresh : Moment → Handler → Result Handler
  unfolding reset_idle_timer
  refresh m r =
      if not r.first_byte_received
      then (do
        q1 ← timers.stop r.initial_timer_id r.queue
        (id, q2) ← timers.after m idle_delay on_idle_timeout q1
        ok (record r { first_byte_received = true; idle_timer_id = id; queue = q2 }))
      else reset_idle_timer m r

  -- The bytes that wait at the frontend go to the backend.
  unfoldable pub relay_request : TcpConnection kernel.State → Handler → Result Handler
  relay_request b r = do
    (request, input') ← retrieve_all_as_string r.frontend.input_buffer
    b' ← send kernel back_env request (on_loop_of r.frontend b)
    ok (record r {
      backend_conn = some b';
      frontend = on_loop_of b' (record r.frontend { input_buffer = input' });
    })

  unfoldable pub on_message : Moment → Handler → Result Handler
  unfolding refresh relay_request
  on_message m r = do
    r' ← refresh m r
    elim r'.backend_conn [
      | none ↦ ok r'
      | some b ↦ if r'.backend_connected then relay_request b r' else ok r'
    ]

  unfoldable pub stop_timer : Handler → Result Handler
  stop_timer r = do
    q ←
        timers.stop (if not r.first_byte_received then r.initial_timer_id else r.idle_timer_id)
          r.queue
    ok (record r { queue = q })

  unfoldable pub on_close : Handler → Result Handler
  unfolding stop_timer
  on_close r = do
    r' ← stop_timer r
    elim r'.backend_conn [
      | none ↦ ok r'
      | some b ↦ do
        b' ← shutdown kernel back_env (on_loop_of r'.frontend b)
        release kernel back_env (some b')
        ok (record r' { backend_conn = none; frontend = on_loop_of b' r'.frontend })
    ]

  unfoldable pub setup_bidirectional_relay : TcpConnection kernel.State → Handler → Handler
  setup_bidirectional_relay b r = record r {
    backend_conn = some (
        set_callback close_callback true (
          set_callback connection_callback true (
            set_callback write_complete_callback true (
              set_high_water_mark_callback true relay_mark
                (set_callback message_callback true b)))));
    frontend =
        set_callback write_complete_callback true
          (set_high_water_mark_callback true relay_mark r.frontend);
  }

  -- A call on the backend that the handler keeps.
  unfoldable pub on_backend :
      (TcpConnection kernel.State → Result (TcpConnection kernel.State)) → Handler → Result Handler
  on_backend f r = elim r.backend_conn [
    | none ↦ ok r
    | some b ↦ do
      b' ← f (on_loop_of r.frontend b)
      ok (record r { backend_conn = some b'; frontend = on_loop_of b' r.frontend })
  ]

  -- The callback of the backend for what it has read.
  unfoldable pub relay_response : Moment → Handler → Result Handler
  unfolding reset_idle_timer
  relay_response m r = do
    r' ← reset_idle_timer m r
    elim r'.backend_conn [
      | none ↦ ok r'
      | some b ↦
          if is_connected r'.frontend.state
          then (do
            (response, input') ← retrieve_all_as_string b.input_buffer
            let b1 : TcpConnection kernel.State = record b { input_buffer = input' }
            f ← send kernel front_env response (on_loop_of b1 r'.frontend)
            ok (record r' { backend_conn = some (on_loop_of f b1); frontend = f }))
          else ok (record r' {
            backend_conn = some (record b { input_buffer = retrieve_all b.input_buffer });
          })
    ]

  -- The connection callback of the backend, and its close callback.
  unfoldable pub backend_changed : Handler → Result Handler
  unfolding shut_frontend relay_request
  backend_changed r = elim r.backend_conn [
    | none ↦ shut_frontend r
    | some b ↦
        if is_connected b.state
        then (do
          let r' : Handler = record r { backend_connected = true }
          if ltb 0 (readable_bytes r.frontend.input_buffer) then relay_request b r' else ok r')
        else shut_frontend r
  ]

  unfoldable pub backend_closed : Handler → Result Handler
  unfolding shut_frontend
  backend_closed r = shut_frontend r

  -- The callbacks that pause and resume the frontend and the backend.
  unfoldable pub pause_frontend : Handler → Result Handler
  pause_frontend r = do f ← stop_read kernel front_env r.frontend; ok (record r { frontend = f })

  unfoldable pub resume_frontend : Handler → Result Handler
  resume_frontend r = do f ← start_read kernel front_env r.frontend; ok (record r { frontend = f })

  unfoldable pub pause_backend : Handler → Result Handler
  unfolding on_backend
  pause_backend r = on_backend (stop_read kernel back_env) r

  unfoldable pub resume_backend : Handler → Result Handler
  unfolding on_backend
  resume_backend r = on_backend (start_read kernel back_env) r

  module _ (connect : InetAddress → Connect) where
    unfoldable pub create_backend_connection : InetAddress → Handler → Result Handler
    unfolding shut_frontend setup_bidirectional_relay on_backend
    create_backend_connection address r = elim (connect address) [
      | no_socket ↦ shut_frontend r
      | connect_failed ↦ shut_frontend r
      | socket_fd fd ↦ do
        b ← Setup.new r.frontend.watch.loop fd
        release kernel back_env r.backend_conn
        on_backend (connect_established_as_client kernel back_env) (setup_bidirectional_relay b r)
    ]

    -- The part of `onConnection` behind the choice.
    unfoldable pub connect_to : Option InetAddress → Handler → Result Handler
    unfolding shut_frontend create_backend_connection runs_now enqueue
    connect_to none r = shut_frontend r
    connect_to (some address) r =
        let w = r.frontend.watch in
        if runs_now w.loop
        then create_backend_connection address r
        else ok (record r {
          frontend = record r.frontend {
            watch = record w { loop = enqueue w.loop (connects_backend address) };
          };
        })

    unfoldable pub on_connection : Moment → Handler → Result Handler
    unfolding connect_to
    on_connection m r =
        if is_connected r.frontend.state
        then (do
          (id, q) ← timers.after m initial_delay on_initial_timeout r.queue
          (address, lb) ← get_next_backend r.load_balancer
          connect_to address (record r { initial_timer_id = id; queue = q; load_balancer = lb }))
        else ok r
