-- ===== src/Capture/Listing.antt =====
-- internal/capture/capture.go: the list of the interfaces, and the names of EtherTypes.
mod Tests
use xbslink_ng.Base.{
  ℕ, suc, Bool, true, false, not, Option, none, some, List, [], ◌∷◌, ◌++◌, ◌==◌, if◌then◌else◌,
  length, codes, decimal, hex_padded, upper_hex_digit,
}
use xbslink_ng.Capture.Handle.{Opened, opened, refused, npcap_not_installed, not_listed}

-- The parts of a pcap device that the list shows; an address that is nil is `none`.
pub record PcapDevice : Type 0 where
  pub name : List ℕ
  pub description : List ℕ
  pub addresses : List (Option (List ℕ))

pub record InterfaceInfo : Type 0 where
  pub name : List ℕ
  pub description : List ℕ
  pub addresses : List (List ℕ)
  pub flags : List ℕ

abbrev pub known_addresses : List (Option (List ℕ)) → List (List ℕ)
known_addresses [] = []
known_addresses (none ∷ xs) = known_addresses xs
known_addresses (some a ∷ xs) = a ∷ known_addresses xs

-- The loop of `ListInterfaces`.
unfoldable pub interfaces_of : List PcapDevice → List InterfaceInfo
interfaces_of [] = []
interfaces_of (d ∷ ds) =
    record {
      name = d.name;
      description = d.description;
      addresses = known_addresses d.addresses;
      flags = if length d.addresses == 0 then [] else codes "UP";
    }
    ∷ interfaces_of ds

unfoldable pub listed : Option (List PcapDevice) → Opened (List InterfaceInfo)
unfolding interfaces_of
listed none = refused not_listed
listed (some ds) = opened (interfaces_of ds)

-- `ListInterfaces`, on the devices that pcap lists.
unfoldable pub list_interfaces : Bool → Option (List PcapDevice) → Opened (List InterfaceInfo)
unfolding listed
list_interfaces npcap_ok devices =
    if not npcap_ok then refused npcap_not_installed else listed devices

-- `strings.Join` with a comma and a space.
abbrev pub with_commas : List (List ℕ) → List ℕ
with_commas [] = []
with_commas (s ∷ []) = s
with_commas (s ∷ t ∷ rest) = s ++ codes ", " ++ with_commas (t ∷ rest)

-- The lines of an interface with its number.
abbrev pub interface_lines : ℕ → InterfaceInfo → List ℕ
interface_lines n i =
    codes "  "
    ++ decimal n
    ++ codes ". "
    ++ i.name
    ++ codes "\n"
    ++ (if length i.description == 0
        then []
        else codes "     Description: " ++ i.description ++ codes "\n")
    ++ (if length i.addresses == 0
        then []
        else codes "     Addresses:   " ++ with_commas i.addresses ++ codes "\n")
    ++ codes "\n"

abbrev pub lines_from : ℕ → List InterfaceInfo → List ℕ
lines_from n [] = []
lines_from n (i ∷ is) = interface_lines n i ++ lines_from (suc n) is

unfoldable pub format_interface_list : List InterfaceInfo → List ℕ
format_interface_list is = codes "Available network interfaces:\n\n" ++ lines_from 1 is

-- `EtherTypeName` of a uint16.
unfoldable pub ether_type_name : ℕ → List ℕ
ether_type_name t =
    if t == 0x0800
    then codes "IPv4"
    else if t == 0x86dd
    then codes "IPv6"
    else if t == 0x0806
    then codes "ARP"
    else codes "0x" ++ hex_padded upper_hex_digit 4 t
