-- ===== src/Capture/Listing/Tests.antt =====
-- internal/capture/capture.go: the list of one interface.
use xbslink_ng.Base.{true, ◌≡◌, refl, none, some, [], ◌∷◌, codes, decimal, digits, hex_padded}
use xbslink_ng.Capture.Handle.{opened}
use xbslink_ng.Capture.Listing.{
  list_interfaces, interfaces_of, format_interface_list, ether_type_name,
}

unnamed_address :
    list_interfaces true
      (some (record { name = codes "eth0"; description = []; addresses = none ∷ [] } ∷ []))
    ≡ opened
        (record { name = codes "eth0"; description = []; addresses = []; flags = codes "UP" } ∷ [])
unfolding list_interfaces interfaces_of
unnamed_address = refl

one_line :
    format_interface_list (
      record {
        name = codes "eth0";
        description = [];
        addresses = codes "10.0.0.1" ∷ codes "::1" ∷ [];
        flags = [];
      }
      ∷ [])
    ≡ codes "Available network interfaces:\n\n  1. eth0\n     Addresses:   10.0.0.1, ::1\n\n"
unfolding format_interface_list decimal digits
one_line = refl

unknown_type : ether_type_name 0x88b5 ≡ codes "0x88B5"
unfolding ether_type_name hex_padded
unknown_type = refl
