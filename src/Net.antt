-- ===== src/Net.antt =====
-- UDP addresses of the Go package net, and `addrEqual` of internal/transport/transport.go and
-- internal/bridge/bridge.go (the two have the same text).
pub mod Laws
use xbslink_ng.Base.{
  ℕ, ◌≡◌, Bool, true, false, ◌&&◌, Option, none, some, List, [], ◌∷◌, ◌==◌, if◌then◌else◌, length,
  take, drop, equal,
}

pub record UdpAddr : Type 0 where
  pub ip : List ℕ
  pub port : ℕ

-- The prefix of an IPv4 address that is written as an IPv6 one.
abbrev pub v4_in_v6_prefix : List ℕ
v4_in_v6_prefix = 0 ∷ 0 ∷ 0 ∷ 0 ∷ 0 ∷ 0 ∷ 0 ∷ 0 ∷ 0 ∷ 0 ∷ 0xff ∷ 0xff ∷ []

-- `net.IP.Equal`: an IPv4 address and the same address in IPv6 form are equal.
unfoldable pub ip_equal : List ℕ → List ℕ → Bool
ip_equal a b =
    if length a == length b
    then equal a b
    else if length a == 4 && length b == 16
    then equal (take 12 b) v4_in_v6_prefix && equal a (drop 12 b)
    else if length a == 16 && length b == 4
    then equal (take 12 a) v4_in_v6_prefix && equal (drop 12 a) b
    else false

-- A pointer that is nil is `none`; two pointers of which one is nil are equal if both are.
unfoldable pub addr_equal : Option UdpAddr → Option UdpAddr → Bool
addr_equal none none = true
addr_equal none (some b) = false
addr_equal (some a) none = false
addr_equal (some a) (some b) = ip_equal a.ip b.ip && a.port == b.port
