-- ===== src/Config/Sample.antt =====
-- A file system and a codec for examples: a home directory that can be written, and the layout that
-- json.MarshalIndent gives a configuration.
use xbslink_ng.Base.{
  sizes, ℕ, ◌-◌, true, ◌≡◌, refl, ap, ◌∙◌, some, List, [], ◌∷◌, ◌++◌, length, take, drop,
  take-append, drop-append, codes,
}
use xbslink_ng.Config.{Config, Json, Os, Disk, not_exist, complete}
use xbslink_ng.Config.Saved.{IsCodec}

abbrev pub before : List ℕ
before = codes "{\n  \"last_xbox_mac\": \""

abbrev pub after : List ℕ
after = codes "\"\n}"

unfoldable pub printed : Config → List ℕ
printed c = before ++ (c.last_xbox_mac ++ after)

unfoldable pub value : List ℕ → List ℕ
value s = take (length s - 3) s

unfoldable pub scanned : List ℕ → Config
unfolding value
scanned bytes = record { last_xbox_mac = value (drop 22 bytes) }

abbrev pub json : Json
json = record {
  marshal_indent = λ (c : Config). some (printed c);
  unmarshal = λ (bytes : List ℕ). some (scanned bytes);
}

scanned-printed : (c : Config) → scanned (printed c) ≡ c
unfolding scanned printed value
scanned-printed c =
    ap (λ (x : List ℕ). record { last_xbox_mac = value x })
      (drop-append 22 before (c.last_xbox_mac ++ after) refl)
    ∙ ap (λ (x : List ℕ). record { last_xbox_mac = x })
        (take-append (length (c.last_xbox_mac ++ after) - 3) c.last_xbox_mac after (grind sizes))

pub codec : IsCodec json printed
codec c h = (refl, ap some (scanned-printed c))

abbrev pub os : Os
os = record {
  user_home_dir = some (codes "/home/u");
  join = λ (a b : List ℕ). a ++ (b'/' ∷ b);
  dir = λ (path : List ℕ). take (length path - 12) path;
  mkdir_all = λ (path : List ℕ). true;
  write_file = λ (path bytes : List ℕ). complete;
}

abbrev pub no_files : Disk
no_files path = not_exist

abbrev pub console : List ℕ
console = 0 ∷ 80 ∷ 242 ∷ 18 ∷ 52 ∷ 86 ∷ []
