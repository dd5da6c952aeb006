-- ===== src/App/HttpProxyHandler.antt =====
-- app/http_proxy_handler.h and app/http_proxy_handler.cpp: the text of a request, and the backend
-- that a path leads to. The two connections and their relay stand in Relay.
pub mod Parsing
pub mod Target
pub mod Relay
pub mod Forward
pub mod FlowControl
mod Tests
use my_net_core_proxy.Prelude.{
  ℕ, zero, suc, ◌+◌, ◌-◌, ◌^◌, ◌%◌, Bool, true, false, ◌&&◌, ◌||◌, ◌==◌, leb, ltb, if◌then◌else◌,
  Option, none, some, List, [], ◌∷◌, ◌++◌, length, take, drop,
}
use my_net_core_proxy.Prelude.Decimal.{value}
use my_net_core_proxy.Prelude.Slices.{slice}
use my_net_core_proxy.Prelude.Text.{find}
use my_net_core_proxy.Net.Channel.{ℤ, pos, negsuc}
use my_net_core_proxy.Net.InetAddress.{string_eq}

abbrev pub crlf : List ℕ
crlf = 13 ∷ 10 ∷ []

-- `": "`
abbrev pub colon_space : List ℕ
colon_space = b':' ∷ b' ' ∷ []

abbrev pub host_key : List ℕ
host_key = b'H' ∷ b'o' ∷ b's' ∷ b't' ∷ []

-- `req.substr(start, end - start)` behind the search for `pattern` from `start` on.
unfoldable pub up_to : List ℕ → List ℕ → ℕ → List ℕ
up_to pattern req start = elim (find pattern req start) [
  | none ↦ []
  | some end ↦ slice req start (end - start)
]

unfoldable pub parse_header : List ℕ → List ℕ → List ℕ
unfolding up_to
parse_header req key = elim (find (key ++ colon_space) req 0) [
  | none ↦ []
  | some at ↦ up_to crlf req (at + length key + 2)
]

unfoldable pub parse_path : List ℕ → List ℕ
unfolding up_to
parse_path req = elim (find (b' ' ∷ []) req 0) [
  | none ↦ []
  | some first_space ↦ up_to (b' ' ∷ []) req (first_space + 1)
]

-- `modified.replace(at, n, text)`
unfoldable pub replace : List ℕ → ℕ → ℕ → List ℕ → List ℕ
replace s at n text = take at s ++ (text ++ drop (at + n) s)

unfoldable pub modify_request_for_backend : List ℕ → List ℕ → List ℕ
unfolding replace
modify_request_for_backend request backend_addr = elim (find (host_key ++ colon_space) request 0) [
  | none ↦ request
  | some host_pos ↦ elim (find crlf request host_pos) [
    | none ↦ request
    | some eol ↦
        replace request host_pos (eol - host_pos + 2)
          (host_key ++ (colon_space ++ (backend_addr ++ crlf)))
  ]
]

-- `std::stoi`: white space, a sign, and digits; `none` where it throws, without a digit or past `int`.
abbrev pub is_space : ℕ → Bool
is_space c = c == 32 || (leb 9 c && leb c 13)

abbrev pub is_digit : ℕ → Bool
is_digit c = leb 48 c && leb c 57

unfoldable pub skip_spaces : List ℕ → List ℕ
skip_spaces [] = []
skip_spaces (c ∷ cs) = let rest = skip_spaces cs in if is_space c then rest else c ∷ cs

unfoldable pub leading_digits : List ℕ → List ℕ
leading_digits [] = []
leading_digits (c ∷ cs) = let rest = leading_digits cs in if is_digit c then c ∷ rest else []

abbrev pub opposite : ℕ → ℤ
opposite zero = pos 0
opposite (suc n) = negsuc n

unfoldable pub magnitude : Bool → List ℕ → Option ℤ
magnitude negative [] = none
magnitude negative (c ∷ cs) =
    let n = value 0 (c ∷ cs) in
    if negative
    then (if leb n (2 ^ 31) then some (opposite n) else none)
    else (if ltb n (2 ^ 31) then some (pos n) else none)

unfoldable pub signed : List ℕ → Option ℤ
unfolding magnitude leading_digits
signed [] = none
signed (c ∷ cs) =
    if c == b'-'
    then magnitude true (leading_digits cs)
    else if c == b'+'
    then magnitude false (leading_digits cs)
    else magnitude false (leading_digits (c ∷ cs))

unfoldable pub stoi : List ℕ → Option ℤ
unfolding signed skip_spaces
stoi s = signed (skip_spaces s)

-- The conversion of an `int` to `uint16_t`.
abbrev pub uint16 : ℤ → ℕ
uint16 (pos n) = n % 2 ^ 16
uint16 (negsuc n) = 2 ^ 16 - 1 - n % 2 ^ 16

-- A routing table: `routing_table_.find(key)`.
abbrev pub lookup : List (List ℕ × List ℕ) → List ℕ → Option (List ℕ)
lookup [] key = none
lookup ((k, v) ∷ table) key = if string_eq k key then some v else lookup table key

-- Where a request goes: to no route, to an address without a colon or a port that is not a number,
-- or to a host and a port, with the address as it stands in the table.
pub data Route : Type 0 where
  not_found invalid_address invalid_port : Route
  backend : List ℕ → ℕ → List ℕ → Route

unfoldable pub resolve_address : List ℕ → Route
resolve_address backend_addr = elim (find (b':' ∷ []) backend_addr 0) [
  | none ↦ invalid_address
  | some at ↦ elim (stoi (drop (at + 1) backend_addr)) [
    | none ↦ invalid_port
    | some port ↦ backend (take at backend_addr) (uint16 port) backend_addr
  ]
]

unfoldable pub resolve : List (List ℕ × List ℕ) → List ℕ → Route
unfolding resolve_address
resolve routing_table path = elim (lookup routing_table path) [
  | some backend_addr ↦ resolve_address backend_addr
  | none ↦ elim (lookup routing_table (b'/' ∷ [])) [
    | some backend_addr ↦ resolve_address backend_addr
    | none ↦ not_found
  ]
]

abbrev pub not_found_response : List ℕ
not_found_response =
    b'H' ∷ b'T' ∷ b'T' ∷ b'P' ∷ b'/' ∷ b'1' ∷ b'.' ∷ b'1' ∷ b' ' ∷ b'4' ∷ b'0' ∷ b'4' ∷ b' ' ∷ b'N'
    ∷ b'o' ∷ b't' ∷ b' ' ∷ b'F' ∷ b'o' ∷ b'u' ∷ b'n' ∷ b'd' ∷ 13 ∷ 10 ∷ b'C' ∷ b'o' ∷ b'n' ∷ b't'
    ∷ b'e' ∷ b'n' ∷ b't' ∷ b'-' ∷ b'L' ∷ b'e' ∷ b'n' ∷ b'g' ∷ b't' ∷ b'h' ∷ b':' ∷ b' ' ∷ b'0' ∷ 13
    ∷ 10 ∷ b'C' ∷ b'o' ∷ b'n' ∷ b'n' ∷ b'e' ∷ b'c' ∷ b't' ∷ b'i' ∷ b'o' ∷ b'n' ∷ b':' ∷ b' ' ∷ b'c'
    ∷ b'l' ∷ b'o' ∷ b's' ∷ b'e' ∷ 13 ∷ 10 ∷ 13 ∷ 10 ∷ []
