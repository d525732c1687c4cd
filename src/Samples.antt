-- ===== src/Samples.antt =====
-- Concrete values for the tests: a stand-in for HMAC-SHA256, codecs, addresses, transports and bridges.
use xbslink_ng.Events.{
  EventType, event_state_changed, event_stats, event_latency, event_discovery, event_error,
  Envelope, Json, newline, type_string,
}
use xbslink_ng.Base.{
  ℕ, ◌+◌, ◌*◌, ◌%◌, ◌^◌, ◌<◌, ◌≤◌, ◌≡◌, ◌≢◌, refl, subst, All, true, false, some, List, [], ◌∷◌,
  ◌++◌, arith, ltb, length, replicate, length-replicate, if◌then◌else◌, negative,
}
use xbslink_ng.Protocol.{Mac, Codec}
use xbslink_ng.Protocol.RoundTrip.{Paired, Linked}
use xbslink_ng.Net.{UdpAddr, addr_equal, ip_equal}
use xbslink_ng.Transport.{Transport, new_listen, new_connect}
use xbslink_ng.Bridge.Rtt.{Float64, no_stats}
use xbslink_ng.Bridge.{Bridge, connected}
use xbslink_ng.Bridge.Forward.{IsUp}

-- A keyed function with 32 bytes of output, which stands in for HMAC-SHA256: a checksum.
abbrev pub checksum : ℕ → List ℕ → ℕ
checksum acc [] = acc
checksum acc (b ∷ bs) = checksum ((acc * 31 + b + 7) % 256) bs

unfoldable pub toy_sum : List ℕ → List ℕ → List ℕ
toy_sum key bytes = replicate 32 (checksum 0 (key ++ bytes))

pub length-toy_sum : (key bytes : List ℕ) → length (toy_sum key bytes) ≡ 32
unfolding toy_sum
length-toy_sum key bytes = length-replicate 32 (checksum 0 (key ++ bytes))

abbrev pub toy_mac : Mac
toy_mac = record { sum = toy_sum; length-sum = length-toy_sum }

abbrev pub secret : List ℕ
secret = 11 ∷ 22 ∷ 33 ∷ []

abbrev pub keyed : Codec
keyed = record { key = secret; send_nonce = 0; recv_nonce = 0; secure_mode = true }

pub keyed-Paired : Paired keyed keyed
keyed-Paired = record {
  same_key = refl;
  same_mode = refl;
  unwrapped = omega arith;
  fresh = omega arith;
}

-- The first ping at the time stamp 258, as it stands on the wire.
abbrev pub first_ping : List ℕ
first_ping = 3 ∷ 0 ∷ 0 ∷ 0 ∷ 0 ∷ 0 ∷ 0 ∷ 0 ∷ 1 ∷ 0 ∷ 0 ∷ 0 ∷ 0 ∷ 0 ∷ 0 ∷ 1 ∷ 2 ∷ []

abbrev pub signed_ping : List ℕ
signed_ping = first_ping ++ replicate 32 (checksum 0 (secret ++ first_ping))

pub keyed-Linked : Linked keyed keyed
keyed-Linked = record { same_key = refl; same_mode = refl; unwrapped = omega arith }

-- 10.0.0.1:31415 and 10.0.0.2:31415, the second also in its IPv6 form.
abbrev pub here : UdpAddr
here = record { ip = 10 ∷ 0 ∷ 0 ∷ 1 ∷ []; port = 31_415 }

abbrev pub there : UdpAddr
there = record { ip = 10 ∷ 0 ∷ 0 ∷ 2 ∷ []; port = 31_415 }

abbrev pub there_v6 : UdpAddr
there_v6 = record {
  ip = 0 ∷ 0 ∷ 0 ∷ 0 ∷ 0 ∷ 0 ∷ 0 ∷ 0 ∷ 0 ∷ 0 ∷ 0xff ∷ 0xff ∷ 10 ∷ 0 ∷ 0 ∷ 2 ∷ [];
  port = 31_415;
}

pub same_there : addr_equal (some there_v6) (some there) ≡ true
unfolding addr_equal ip_equal
same_there = refl

pub other_host : addr_equal (some here) (some there) ≡ false
unfolding addr_equal ip_equal
other_host = refl

abbrev pub random_bytes : List ℕ
random_bytes = replicate 16 77

abbrev pub listener : Transport
listener = new_listen keyed

abbrev pub connector : Transport
connector = new_connect keyed there

-- A bridge whose transport has come up.
abbrev pub up_bridge : UdpAddr → Bridge
up_bridge peer = record {
  transport = record (new_connect keyed peer) { connected = true };
  stats = no_stats;
  state = connected;
  frames_to_send = [];
  frames_to_inject = [];
  done_closes = 0;
  done_once = false;
  pending_ping = 0;
  missed_pongs = 0;
}

pub up_bridge-IsUp : (peer : UdpAddr) → IsUp (up_bridge peer)
unfolding new_connect
up_bridge-IsUp peer = record { connected = refl; open_socket = refl }

-- Whole numbers in place of float64, with the sign test of int64.
pub exact_test :
    (x y : ℕ) → x < 2 ^ 53 → (if negative x then false else ltb y (2 * x)) ≡ ltb y (2 * x)
exact_test x y h = ground arith

pub negative_test : (x y : ℕ) → 2 ^ 63 ≤ x → (if negative x then false else ltb y (2 * x)) ≡ false
negative_test x y h = ground arith

abbrev pub whole_numbers : Float64
whole_numbers = record {
  Float = ℕ;
  of_int64 = λ x. x;
  times_half = λ x. x;
  gtb = λ x y. if negative x then false else ltb y (2 * x);
  exact = λ x y hx hy. exact_test x y hx;
  exact_negative = λ x y lo hi hy. negative_test x y lo;
}

-- An encoder that writes the type of an event.
one_line : (t : EventType) → All (λ (c : ℕ). c ≢ newline) (type_string t)
unfolding type_string
one_line event_state_changed = omega arith
one_line event_stats = omega arith
one_line event_latency = omega arith
one_line event_discovery = omega arith
one_line event_error = omega arith

pub typed_line :
    (t : EventType) (l : List ℕ) → some (type_string t) ≡ some l → All (λ (c : ℕ). c ≢ newline) l
typed_line t l h =
    let e : type_string t ≡ l = cc in subst (All (λ (c : ℕ). c ≢ newline)) e (one_line t)

abbrev pub typed : Json ℕ
typed = record {
  text = λ (e : Envelope ℕ). some (type_string e.event_type);
  one_line = λ e l h. typed_line e.event_type l h;
}
