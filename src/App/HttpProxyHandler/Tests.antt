-- ===== src/App/HttpProxyHandler/Tests.antt =====
-- Runs of the handler on small requests, and each theorem at a concrete one.
use my_net_core_proxy.Prelude.{
  ℕ, zero, suc, ◌≡◌, refl, ◌⊎◌, inr, Bool, false, ◌||◌, ◌==◌, some, List, [], ◌∷◌, ◌++◌, ok, arith,
}
use my_net_core_proxy.Prelude.Text.{find, find_first, is_prefix, next, shift}
use my_net_core_proxy.Prelude.Decimal.{to_string}
use my_net_core_proxy.Net.Buffer.Valid.{contents}
use my_net_core_proxy.Net.Channel.{pos}
use my_net_core_proxy.Net.EventLoop.Table.{State, table}
use my_net_core_proxy.Net.TcpConnection.{TcpConnection}
use my_net_core_proxy.Net.TcpConnection.Kept.{stream}
use my_net_core_proxy.App.HttpProxyHandler.{
  parse_header, modify_request_for_backend, host_key, colon_space, crlf, resolve, backend, stoi,
}
use my_net_core_proxy.App.HttpProxyHandler.Parsing.{
  Absent, parse_header_lem, modify_request_for_backend_lem,
}
use my_net_core_proxy.App.HttpProxyHandler.Target.{resolve_lem, stoi-to_string}
use my_net_core_proxy.App.Backend.Samples.{
  quiet, quiet-Plain, empty, empty-IsValid, input, input-IsValid, connection, texts, no_connect,
}
use my_net_core_proxy.App.HttpProxyHandler.Relay.{HttpProxyHandler, on_message}
use my_net_core_proxy.App.Backend.Sending.{Refuses}
use my_net_core_proxy.App.HttpProxyHandler.Forward.{stream-on_message}

stands_in : ℕ → List ℕ → Bool
stands_in c [] = false
stands_in c (x ∷ xs) = x == c || stands_in c xs

stands_in-Absent : (c : ℕ) (s : List ℕ) → stands_in c s ≡ false → Absent c s
unfolding stands_in
stands_in-Absent c [] e i h = cc
stands_in-Absent c (x ∷ xs) e zero h = ground arith
stands_in-Absent c (x ∷ xs) e (suc i) h = stands_in-Absent c xs (ground arith) i h

-- A request with a Host line.
abbrev request : List ℕ
request =
    (b'G' ∷ b'E' ∷ b'T' ∷ b' ' ∷ b'/' ∷ b'a' ∷ b' ' ∷ b'H' ∷ [])
    ++ (crlf ++ (host_key ++ (colon_space ++ ((b'm' ∷ b'e' ∷ []) ++ (crlf ++ crlf)))))

parse_header_lem_example : parse_header request host_key ≡ (b'm' ∷ b'e' ∷ [])
unfolding stands_in find_first is_prefix next
parse_header_lem_example =
    parse_header_lem ((b'G' ∷ b'E' ∷ b'T' ∷ b' ' ∷ b'/' ∷ b'a' ∷ b' ' ∷ b'H' ∷ []) ++ crlf) host_key
      (b'm' ∷ b'e' ∷ []) crlf refl (stands_in-Absent 13 (b'm' ∷ b'e' ∷ []) refl)

modify_request_for_backend_lem_example :
    (modify_request_for_backend request (b'b' ∷ b':' ∷ b'1' ∷ [])
      ≡ (b'G' ∷ b'E' ∷ b'T' ∷ b' ' ∷ b'/' ∷ b'a' ∷ b' ' ∷ b'H' ∷ [])
        ++ (crlf ++ (host_key ++ (colon_space ++ ((b'b' ∷ b':' ∷ b'1' ∷ []) ++ (crlf ++ crlf))))))
    × (parse_header (modify_request_for_backend request (b'b' ∷ b':' ∷ b'1' ∷ [])) host_key
        ≡ (b'b' ∷ b':' ∷ b'1' ∷ []))
unfolding stands_in find find_first is_prefix next shift
modify_request_for_backend_lem_example =
    modify_request_for_backend_lem request (b'b' ∷ b':' ∷ b'1' ∷ []) 10 18 refl refl
      (stands_in-Absent 13 (b'b' ∷ b':' ∷ b'1' ∷ []) refl)

stoi-to_string_example : stoi (to_string 8080) ≡ some (pos 8080)
stoi-to_string_example = stoi-to_string 8080 (omega arith)

-- One route, for every path.
abbrev routes : List (List ℕ × List ℕ)
routes = ((b'/' ∷ []), (b'b' ∷ b':' ∷ []) ++ to_string 80) ∷ []

resolve_lem_example :
    resolve routes (b'/' ∷ b'a' ∷ []) ≡ backend (b'b' ∷ []) 80 ((b'b' ∷ b':' ∷ []) ++ to_string 80)
unfolding stands_in
resolve_lem_example =
    resolve_lem routes (b'/' ∷ b'a' ∷ []) (b'b' ∷ []) 80 (stands_in-Absent b':' (b'b' ∷ []) refl)
      (omega arith) (inr (refl, refl))

abbrev relaying : HttpProxyHandler State
relaying = record {
  frontend = connection 7 input;
  routing_table = routes;
  waiting_for_initial_data = false;
  backend_conn = some (connection 8 empty);
}

stream-on_message_example :
    ((r' : HttpProxyHandler State) × (b' : TcpConnection State) × (on_message table quiet quiet
          texts no_connect relaying
        ≡ ok r')
      × (r'.backend_conn ≡ some b')
      × (stream b' ≡ 5 ∷ 6 ∷ [])
      × (contents r'.frontend.input_buffer ≡ []))
    ⊎ Refuses table quiet (5 ∷ 6 ∷ [])
stream-on_message_example =
    stream-on_message table quiet quiet texts no_connect relaying (connection 8 empty) refl refl
      input-IsValid quiet-Plain
      (record { up = refl; in_thread = refl; valid = empty-IsValid; room = omega arith })
