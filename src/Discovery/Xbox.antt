-- ===== src/Discovery/Xbox.antt =====
-- Which device `Discover` reports.
use xbslink_ng.Base.{
  append-nil, ℕ, ◌%◌, ◌≤◌, ◌≡◌, refl, ap, sym, ◌∙◌, ◌⊎◌, inl, inr, false, not, Option, none, some,
  List, [], ◌∷◌, ◌++◌, arith, All, length, get_or, slice, copy_at, make, copy_at-append, take,
  le→ltb, ==_iff, length-drop, length-take, Bool-cases, if_true, if_false,
}
use xbslink_ng.Discovery.{Turn, Exit, discovery_cancelled, found, on_packet, on_read, discover}

-- A packet of a device: an Ethernet header whose source is no group address.
abbrev pub FromDevice : List ℕ → Type 0
FromDevice p = (14 ≤ length p) × (get_or (slice 6 12 p) 0 0 % 2 ≡ 0)

-- A turn that the loop passes over.
abbrev pub IsPassed : Turn → Type 0
IsPassed t =
    (t.cancelled ≡ false)
    × ((t.packet ≡ none) ⊎ ((p : List ℕ) × (t.packet ≡ some p) × ¬ FromDevice p))

pub record IsFirst (turns : List Turn) (mac : List ℕ) : Type 0 where
  pub before : List Turn
  pub turn : Turn
  pub later : List Turn
  pub packet : List ℕ
  pub split : turns ≡ before ++ (turn ∷ later)
  pub passed : All IsPassed before
  pub goes_on : turn.cancelled ≡ false
  pub has_packet : turn.packet ≡ some packet
  pub from_device : FromDevice packet
  pub source : mac ≡ slice 6 12 packet

copied : (p : List ℕ) → 14 ≤ length p → copy_at (make 6) 0 (slice 6 12 p) ≡ slice 6 12 p
copied p h =
    copy_at-append [] (make 6) [] (slice 6 12 p) 0 refl
      (omega (arith, length-drop 6 (take 12 p), length-take 12 p (omega (arith, h))))
    ∙ append-nil (slice 6 12 p)

packet_taken : (p : List ℕ) (rest : Exit) → FromDevice p → on_packet p rest ≡ found (slice 6 12 p)
unfolding on_packet
packet_taken p rest h =
    if_false _ _ (le→ltb _ _ h.0)
    ∙ if_false _ _ (ap not ((==_iff _ _).1 h.1))
    ∙ ap found (copied p h.0)

packet_passed : (p : List ℕ) (rest : Exit) → ¬ FromDevice p → on_packet p rest ≡ rest
unfolding on_packet
packet_passed p rest h = ground arith

FromDevice-dec : (p : List ℕ) → FromDevice p ⊎ (¬ FromDevice p)
FromDevice-dec p = ground arith

-- What a read leads to: a packet of a device is the answer, and anything else is passed over.
read_cases :
    (r : Option (List ℕ)) (rest : Exit)
    → ((p : List ℕ) × (r ≡ some p) × FromDevice p × (on_read r rest ≡ found (slice 6 12 p)))
      ⊎ (((r ≡ none) ⊎ ((p : List ℕ) × (r ≡ some p) × ¬ FromDevice p)) × (on_read r rest ≡ rest))
unfolding on_read on_packet
read_cases none rest = inr (inl refl, refl)
read_cases (some p) rest = elim (FromDevice-dec p) [
  | inl yes_it_is ↦ inl (p, refl, yes_it_is, packet_taken p rest yes_it_is)
  | inr not_it ↦ inr (inr (p, refl, not_it), packet_passed p rest not_it)
]

abbrev mac_of : Exit → List ℕ
mac_of (found mac) = mac
mac_of e = []

-- A turn that does not find the cancellation, in front of the others.
turn-IsFirst :
    (t : Turn) (later : List Turn) (mac : List ℕ)
    → t.cancelled ≡ false
    → on_read t.packet (discover later) ≡ found mac
    → (discover later ≡ found mac → IsFirst later mac)
    → IsFirst (t ∷ later) mac
turn-IsFirst t later mac on h rest = elim (read_cases t.packet (discover later)) [
  | inl (p, e, dev, out) ↦ record {
    before = [];
    turn = t;
    later = later;
    packet = p;
    split = refl;
    passed = tt;
    goes_on = on;
    has_packet = e;
    from_device = dev;
    source = ap mac_of (sym h ∙ out);
  }
  | inr (skipped, out) ↦
      (let f = rest (sym out ∙ h) in
        record {
          before = t ∷ f.before;
          turn = f.turn;
          later = f.later;
          packet = f.packet;
          split = ap (◌∷◌ t) f.split;
          passed = ((on, skipped), f.passed);
          goes_on = f.goes_on;
          has_packet = f.has_packet;
          from_device = f.from_device;
          source = f.source;
        })
]

-- A device that is reported is the source of the first packet that is one of a device, before the
-- context is cancelled; every packet before it was too short or came from a group address.
pub discover-IsFirst :
    (turns : List Turn) (mac : List ℕ) → discover turns ≡ found mac → IsFirst turns mac
unfolding discover
discover-IsFirst [] mac h = cc
discover-IsFirst (t ∷ later) mac h = elim (Bool-cases t.cancelled) [
  | inl off ↦ cc (sym (if_true discovery_cancelled (on_read t.packet (discover later)) off) ∙ h)
  | inr on ↦
      turn-IsFirst t later mac on (sym (if_false _ _ on) ∙ h)
        (λ rest. discover-IsFirst later mac rest)
]
