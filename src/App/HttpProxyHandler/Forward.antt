-- ===== src/App/HttpProxyHandler/Forward.antt =====
-- app/http_proxy_handler.cpp: what the handler hands from one connection to the other, and its end.
use my_net_core_proxy.Prelude.{
  ℕ, ◌<◌, ◌≡◌, ◌≢◌, refl, ◌⊎◌, inl, inr, true, false, ltb, lt→ltb, Option-cases, none, some, List,
  [], ◌∷◌, ◌++◌, length, ok, fault, assertion, arith,
}
use my_net_core_proxy.Net.Buffer.{readable_bytes, retrieve_all}
use my_net_core_proxy.Net.Buffer.Valid.{IsValid, contents, length-contents, no_wrap}
use my_net_core_proxy.Net.Buffer.Strings.{retrieve_all_as_string_lem}
use my_net_core_proxy.Net.EventLoop.{Epoll}
use my_net_core_proxy.Net.InetAddress.{InetAddress, InetText}
use my_net_core_proxy.Net.TcpConnection.{
  TcpConnection, Environment, State, connected, connecting, dis_connecting, dis_connected, destroy,
}
use my_net_core_proxy.Net.TcpConnection.Kept.{stream}
use my_net_core_proxy.App.HttpProxyHandler.{modify_request_for_backend}
use my_net_core_proxy.App.HttpProxyHandler.Relay.{
  HttpProxyHandler, on_message, on_close, forward_request, backend_established,
}
use my_net_core_proxy.App.Backend.{Connect, on_loop_of, release}
use my_net_core_proxy.App.Backend.Sending.{Ready, Plain, Refuses, send_lem}

module _ (kernel : Epoll) (front_env back_env : Environment kernel.State) (text : InetText)
    (connect : InetAddress → Connect) where
  -- In the forwarding phase, with a backend that is connected, in the loop's thread and with room
  -- for it, onMessage moves the waiting bytes of a valid input buffer, all and in order, behind
  -- those that the backend was sent, and empties the input, provided the kernel takes no more
  -- than it is offered and the callbacks leave the backend alone; or the first write of the bytes
  -- fails for good.
  pub stream-on_message :
      (r : HttpProxyHandler kernel.State) (b : TcpConnection kernel.State)
      → r.waiting_for_initial_data ≡ false
      → r.backend_conn ≡ some b
      → IsValid r.frontend.input_buffer
      → Plain kernel back_env
      → Ready kernel back_env (contents r.frontend.input_buffer) (on_loop_of r.frontend b)
      → ((r' : HttpProxyHandler kernel.State) × (b' : TcpConnection kernel.State) × (on_message
              kernel front_env back_env text connect r
            ≡ ok r')
          × (r'.backend_conn ≡ some b')
          × (stream b' ≡ stream b ++ contents r.frontend.input_buffer)
          × (contents r'.frontend.input_buffer ≡ []))
        ⊎ Refuses kernel back_env (contents r.frontend.input_buffer)
  unfolding on_message forward_request
  stream-on_message r b w has v p h =
      let (read, _, gone) = retrieve_all_as_string_lem {b = r.frontend.input_buffer} v in
      elim (send_lem kernel back_env (contents r.frontend.input_buffer) (on_loop_of r.frontend b) p
        h) [
          | inr refusal ↦ inr refusal
          | inl (b', sent, bytes) ↦ inl (
            record r {
              backend_conn = some b';
              frontend =
                  on_loop_of b'
                    (record r.frontend { input_buffer = retrieve_all r.frontend.input_buffer });
            },
            b',
            ground (arith, w, has, read, sent, h.up),
            refl,
            bytes,
            gone,
          )
        ]

  -- With a backend that is connected, in the loop's thread and with room for it, and a frontend
  -- with waiting bytes in a valid input buffer, the connection callback moves the request,
  -- rewritten for the backend, behind the bytes that the backend was sent, and empties the input,
  -- provided the kernel takes no more than it is offered and the callbacks leave the backend
  -- alone; or the first write of it fails for good.
  pub stream-backend_established :
      (backend_addr : List ℕ) (r : HttpProxyHandler kernel.State) (b : TcpConnection kernel.State)
      → r.backend_conn ≡ some b
      → IsValid r.frontend.input_buffer
      → contents r.frontend.input_buffer ≢ []
      → Plain kernel back_env
      → Ready kernel back_env
          (modify_request_for_backend (contents r.frontend.input_buffer) backend_addr)
          (on_loop_of r.frontend b)
      → ((r' : HttpProxyHandler kernel.State) × (b' : TcpConnection kernel.State)
          × (backend_established kernel front_env back_env text connect backend_addr r ≡ ok r')
          × (r'.backend_conn ≡ some b')
          × (stream b'
              ≡ stream b
                ++ modify_request_for_backend (contents r.frontend.input_buffer) backend_addr)
          × (contents r'.frontend.input_buffer ≡ []))
        ⊎ Refuses kernel back_env
            (modify_request_for_backend (contents r.frontend.input_buffer) backend_addr)
  unfolding backend_established
  stream-backend_established backend_addr r b has v some_input p h =
      let (read, _, gone) = retrieve_all_as_string_lem {b = r.frontend.input_buffer} v in
      let some_bytes : ltb 0 (readable_bytes r.frontend.input_buffer) ≡ true =
        lt→ltb 0 (readable_bytes r.frontend.input_buffer) (
          omega (
            arith,
            no_wrap v,
            length-contents v,
            nonempty (contents r.frontend.input_buffer) some_input,
          )) in
      elim (send_lem kernel back_env
        (modify_request_for_backend (contents r.frontend.input_buffer) backend_addr)
        (on_loop_of r.frontend b) p h) [
          | inr refusal ↦ inr refusal
          | inl (b', sent, bytes) ↦ inl (
            record r {
              backend_conn = some b';
              frontend =
                  on_loop_of b'
                    (record r.frontend { input_buffer = retrieve_all r.frontend.input_buffer });
            },
            b',
            ground (arith, has, read, sent, h.up, some_bytes),
            refl,
            bytes,
            gone,
          )
        ]
    where
      nonempty : (xs : List ℕ) → xs ≢ [] → 0 < length xs
      nonempty [] h = absurd (h refl)
      nonempty (x ∷ xs) h = omega arith

  -- onClose ends in the failed assertion of the backend's destructor, the backend being in
  -- another state than disconnected, or succeeds and leaves no backend.
  pub on_close_lem :
      (r : HttpProxyHandler kernel.State)
      → ((b : TcpConnection kernel.State) × (r.backend_conn ≡ some b)
          × (b.state ≢ dis_connected)
          × (on_close kernel front_env back_env text connect r ≡ fault assertion))
        ⊎ (on_close kernel front_env back_env text connect r
            ≡ ok (record r { backend_conn = none }))
  unfolding on_close release destroy
  on_close_lem r = elim (Option-cases r.backend_conn) [
    | inl none_left ↦ inr (ground (arith, none_left))
    | inr (b, has) ↦ by_state b has b.state refl
  ]
    where
      by_state :
          (b : TcpConnection kernel.State)
          → r.backend_conn ≡ some b
          → (s : State) → b.state ≡ s
          → ((b : TcpConnection kernel.State) × (r.backend_conn ≡ some b)
              × (b.state ≢ dis_connected)
              × (on_close kernel front_env back_env text connect r ≡ fault assertion))
            ⊎ (on_close kernel front_env back_env text connect r
                ≡ ok (record r { backend_conn = none }))
      by_state b has dis_connected e = inr (ground (arith, has, e))
      by_state b has connected e = inl (b, has, (λ d. cc), ground (arith, has, e))
      by_state b has connecting e = inl (b, has, (λ d. cc), ground (arith, has, e))
      by_state b has dis_connecting e = inl (b, has, (λ d. cc), ground (arith, has, e))
