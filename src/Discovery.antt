-- ===== src/Discovery.antt =====
-- internal/discovery/discovery.go: the loop of `Discover` on an open handle, and the search for an
-- interface, which internal/capture/capture.go has as well. Strings are lists of characters;
-- `strings.ToLower`, which rests on the tables of Unicode, is an argument.
pub mod Xbox
pub mod Session
pub mod Interface
mod Tests
use xbslink_ng.Base.{
  ℕ, ◌+◌, ◌%◌, ◌≡◌, Bool, true, false, ◌&&◌, ◌||◌, not, Option, none, some, List, [], ◌∷◌, ltb, leb,
  ◌==◌, equal, if◌then◌else◌, length, get_or, slice, make, copy_at,
}

-- One turn of the loop: whether the context is cancelled, and the packet, or `none` where the read
-- gives an error or a timeout.
pub record Turn : Type 0 where
  pub cancelled : Bool
  pub packet : Option (List ℕ)

-- How the loop ends; `listening` is no return: the turns are used up.
pub data Exit : Type 0 where
  discovery_cancelled listening : Exit
  found : List ℕ → Exit

-- The copy of the source address that is returned.
abbrev copy_mac : List ℕ → List ℕ
copy_mac src = copy_at (make 6) 0 src

unfoldable pub on_packet : List ℕ → Exit → Exit
on_packet packet rest =
    if ltb (length packet) 14
    then rest
    else if not (get_or (slice 6 12 packet) 0 0 % 2 == 0)
    then rest
    else found (copy_mac (slice 6 12 packet))

unfoldable pub on_read : Option (List ℕ) → Exit → Exit
unfolding on_packet
on_read none rest = rest
on_read (some packet) rest = on_packet packet rest

unfoldable pub discover : List Turn → Exit
unfolding on_read
discover [] = listening
discover (t ∷ later) =
    let rest = discover later in if t.cancelled then discovery_cancelled else on_read t.packet rest

-- The parts of a pcap device that the search reads.
pub record Device : Type 0 where
  pub name : List ℕ
  pub description : List ℕ

-- The loop over the devices with an early return.
abbrev pub first_where : (Device → Bool) → List Device → Option Device
first_where p [] = none
first_where p (d ∷ ds) = if p d then some d else first_where p ds

abbrev pub or_else : Option Device → Option Device → Option Device
or_else none d = d
or_else (some d) e = some d

abbrev starts_with : List ℕ → List ℕ → Bool
starts_with s [] = true
starts_with [] (p ∷ ps) = false
starts_with (c ∷ s) (p ∷ ps) = c == p && starts_with s ps

-- `strings.Contains`.
abbrev pub contains : List ℕ → List ℕ → Bool
contains [] part = starts_with [] part
contains (c ∷ s) part = starts_with (c ∷ s) part || contains s part

module _ (lower : List ℕ → List ℕ) (wanted : List ℕ) where
  abbrev pub is_exact : Device → Bool
  is_exact d = equal d.name wanted

  abbrev pub is_caseless : Device → Bool
  is_caseless d = equal (lower d.name) (lower wanted)

  abbrev pub is_described : Device → Bool
  is_described d = contains (lower d.description) (lower wanted)

  -- `capture.FindInterface`, on the interfaces of the system.
  unfoldable pub find_device : List Device → Option Device
  find_device ds =
      or_else (first_where is_exact ds)
        (or_else (first_where is_caseless ds) (first_where is_described ds))

  abbrev pub name_of : Option Device → Option (List ℕ)
  name_of none = none
  name_of (some d) = some d.name

  -- `findInterface`, whose three loops return the name.
  unfoldable pub find_interface : List Device → Option (List ℕ)
  find_interface ds = name_of (
      or_else (first_where is_exact ds)
        (or_else (first_where is_caseless ds) (first_where is_described ds)))
