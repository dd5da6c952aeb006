-- ===== src/Net/InetAddress.antt =====
-- net/inet_address.h and net/inet_address.cpp: an IPv4 address with a port, as the socket calls take
-- it. The text of an address comes from `inet_ntop` and goes through `inet_addr`, which are given.
pub mod Order
mod Tests
use my_net_core_proxy.Prelude.{
  ℕ, zero, suc, ◌+◌, ◌*◌, ◌/◌, ◌%◌, ◌^◌, Bool, true, false, List, [], ◌∷◌, ◌++◌, ltb, ◌==◌,
  if◌then◌else◌,
}
use my_net_core_proxy.Prelude.Decimal.{to_string}

-- `struct sockaddr_in`; the port is in network order.
pub record SockAddrIn : Type 0 where
  pub sin_family : ℕ
  pub s_addr : ℕ
  pub sin_port : ℕ

abbrev pub af_inet : ℕ
af_inet = 2

-- `htons` and `ntohs` swap the two bytes of a port on the little-endian machines that this runs on.
abbrev pub swap16 : ℕ → ℕ
swap16 x = x % 256 * 256 + x / 256 % 256

-- `operator==` and `operator<` of `std::string`.
abbrev pub string_eq : List ℕ → List ℕ → Bool
string_eq [] [] = true
string_eq [] (y ∷ ys) = false
string_eq (x ∷ xs) [] = false
string_eq (x ∷ xs) (y ∷ ys) = if x == y then string_eq xs ys else false

abbrev pub string_lt : List ℕ → List ℕ → Bool
string_lt [] [] = false
string_lt [] (y ∷ ys) = true
string_lt (x ∷ xs) [] = false
string_lt (x ∷ xs) (y ∷ ys) = if x == y then string_lt xs ys else ltb x y

pub record InetAddress : Type 0 where
  pub addr : SockAddrIn

-- The two conversions of the socket library.
pub record InetText : Type 0 where
  pub inet_addr : List ℕ → ℕ
  pub inet_ntop : ℕ → List ℕ

module _ (text : InetText) where
  open text use {inet_addr, inet_ntop}

  pub new : List ℕ → ℕ → InetAddress
  new ip port = record {
    addr = record { sin_family = af_inet; s_addr = inet_addr ip; sin_port = swap16 port };
  }

  pub to_ip : InetAddress → List ℕ
  to_ip a = inet_ntop a.addr.s_addr

  unfoldable pub to_ip_port : InetAddress → List ℕ
  to_ip_port a = inet_ntop a.addr.s_addr ++ (b':' ∷ to_string (swap16 a.addr.sin_port))

  unfoldable pub eq : InetAddress → InetAddress → Bool
  unfolding to_ip_port
  eq a b = string_eq (to_ip_port a) (to_ip_port b)

  unfoldable pub lt : InetAddress → InetAddress → Bool
  unfolding to_ip_port
  lt a b = string_lt (to_ip_port a) (to_ip_port b)

abbrev pub of_sockaddr : SockAddrIn → InetAddress
of_sockaddr addr = record { addr = addr }

pub to_port : InetAddress → ℕ
to_port a = swap16 a.addr.sin_port
