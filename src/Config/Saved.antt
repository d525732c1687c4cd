-- ===== src/Config/Saved.antt =====
-- internal/config/config.go: what is loaded after a save.
use xbslink_ng.Base.{
  hex_digit, ℕ, ◌<◌, ◌≤◌, ◌/◌, ◌%◌, ◌≡◌, ap, ◌∙◌, true, Option, none, some, List, [], ◌∷◌, equal,
  equal_refl, if_true, All, IsByte, length, arith,
}
use xbslink_ng.Capture.Mac.{joined, mac_string}
use xbslink_ng.Capture.Mac.RoundTrip.{net_parse_mac-mac_string}
use xbslink_ng.Config.{
  Config, Json, Os, Error, Disk, complete, loaded, put_file, content, parsed, read_config,
  write_marshalled, load_from, load_at, load, save_to, save_at, save, default_config_path,
  get_xbox_mac, set_xbox_mac, after_write,
}

abbrev pub IsPrintable : ℕ → Type 0
IsPrintable c = (32 ≤ c) × (c < 127)

-- encoding/json writes a text of printable ASCII, and reads it back.
abbrev pub IsCodec : Json → (Config → List ℕ) → Type 0
IsCodec json encode =
    (c : Config)
    → All IsPrintable c.last_xbox_mac
    → (json.marshal_indent c ≡ some (encode c)) × (json.unmarshal (encode c) ≡ some c)

hex_digit-IsPrintable : (d : ℕ) → d < 16 → IsPrintable (hex_digit d)
hex_digit-IsPrintable d h = ground arith

joined-IsPrintable : (mac : List ℕ) → All IsByte mac → All IsPrintable (joined b':' mac)
unfolding joined
joined-IsPrintable [] h = tt
joined-IsPrintable (b ∷ []) h = (
  hex_digit-IsPrintable (b / 16) (omega arith),
  (hex_digit-IsPrintable (b % 16) (omega arith), tt),
)
joined-IsPrintable (b ∷ c ∷ mac) h = (
  hex_digit-IsPrintable (b / 16) (omega arith),
  (hex_digit-IsPrintable (b % 16) (omega arith), (omega arith, joined-IsPrintable (c ∷ mac) h.1)),
)

save_to_lem :
    (os : Os) (json : Json) (encode : Config → List ℕ) (c : Config) (path : List ℕ) (disk : Disk)
    → json.marshal_indent c ≡ some (encode c)
    → os.mkdir_all (os.dir path) ≡ true
    → os.write_file path (encode c) ≡ complete
    → save_to os json c path disk ≡ (put_file disk path (content (encode c)), none)
unfolding save_to
save_to_lem os json encode c path disk m d w =
    if_true {b = os.mkdir_all (os.dir path)} _ _ d
    ∙ ap (write_marshalled os path disk) m
    ∙ ap (after_write disk path (encode c)) w

put_file_lem :
    (json : Json) (c : Config) (bytes path : List ℕ) (disk : Disk)
    → json.unmarshal bytes ≡ some c
    → load_from json path (put_file disk path (content bytes)) ≡ loaded c
unfolding load_from
put_file_lem json c bytes path disk u =
    ap (read_config json) (if_true {b = equal path path} _ _ (equal_refl path)) ∙ ap parsed u

get-set_xbox_mac :
    (c : Config) (mac : List ℕ)
    → length mac ≡ 6
    → All IsByte mac
    → get_xbox_mac (set_xbox_mac c mac) ≡ some mac
unfolding get_xbox_mac set_xbox_mac mac_string joined
get-set_xbox_mac c [] n h = absurd (omega arith)
get-set_xbox_mac c (a ∷ []) n h = absurd (omega arith)
get-set_xbox_mac c (a ∷ b ∷ mac) n h = net_parse_mac-mac_string (a ∷ b ∷ mac) n h

save_lem :
    (os : Os) (json : Json) (encode : Config → List ℕ) (c : Config) (path : List ℕ) (disk : Disk)
    → default_config_path os ≡ some path
    → json.marshal_indent c ≡ some (encode c)
    → os.mkdir_all (os.dir path) ≡ true
    → os.write_file path (encode c) ≡ complete
    → save os json c disk ≡ (put_file disk path (content (encode c)), none)
unfolding save
save_lem os json encode c path disk p m d w =
    ap (save_at os json c disk) p ∙ save_to_lem os json encode c path disk m d w

-- Where encoding/json is a codec, the home directory is known and its steps succeed, `Save` of the
-- address of a console returns no error, and `Load` then returns a configuration for which
-- `GetXboxMAC` is that address.
pub save-load :
    (os : Os) (json : Json) (encode : Config → List ℕ)
    → IsCodec json encode
    → (c : Config) (mac : List ℕ) → length mac ≡ 6
    → All IsByte mac
    → (path : List ℕ) (disk : Disk) → default_config_path os ≡ some path
    → os.mkdir_all (os.dir path) ≡ true
    → os.write_file path (encode (set_xbox_mac c mac)) ≡ complete
    → ((save os json (set_xbox_mac c mac) disk).1 ≡ none)
      × (load os json (save os json (set_xbox_mac c mac) disk).0 ≡ loaded (set_xbox_mac c mac))
      × (get_xbox_mac (set_xbox_mac c mac) ≡ some mac)
unfolding load set_xbox_mac mac_string
save-load os json encode codec c mac n h path disk p d w =
    let saved = set_xbox_mac c mac in
    let law = codec saved (joined-IsPrintable mac h) in
    let e = save_lem os json encode saved path disk p law.0 d w in
    (
      ap (λ (out : Disk × Option Error). out.1) e,
      ap (λ (out : Disk × Option Error). load os json out.0) e
          ∙ ap (load_at json (put_file disk path (content (encode saved)))) p
          ∙ put_file_lem json saved (encode saved) path disk law.1,
      get-set_xbox_mac c mac n h,
    )
