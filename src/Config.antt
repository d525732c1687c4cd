-- ===== src/Config.antt =====
-- internal/config/config.go. The file system, the join of paths and the package encoding/json are
-- arguments; an error is the step that failed.
pub mod Saved
pub mod Sample
mod Tests
use mathlib.Core.Option.{map}
use xbslink_ng.Base.{
  ℕ, Bool, true, false, Option, none, some, List, [], ◌∷◌, ◌++◌, equal, if◌then◌else◌, codes,
}
use xbslink_ng.Capture.Mac.{mac_string, net_parse_mac}

pub record Config : Type 0 where
  pub last_xbox_mac : List ℕ

abbrev pub empty_config : Config
empty_config = record { last_xbox_mac = [] }

-- `json.MarshalIndent` and `json.Unmarshal` of a configuration.
pub record Json : Type 0 where
  pub marshal_indent : Config → Option (List ℕ)
  pub unmarshal : List ℕ → Option Config

-- What `os.ReadFile` finds under a path.
pub data File : Type 0 where
  content : List ℕ → File
  not_exist unreadable : File

-- A write that fails leaves some file behind.
pub data Written : Type 0 where
  complete : Written
  failed : File → Written

pub record Os : Type 0 where
  pub user_home_dir : Option (List ℕ)
  pub join : List ℕ → List ℕ → List ℕ
  pub dir : List ℕ → List ℕ
  pub mkdir_all : List ℕ → Bool
  pub write_file : List ℕ → List ℕ → Written

pub data Error : Type 0 where
  no_home bad_read bad_parse bad_mkdir bad_marshal bad_write : Error

pub data Loaded : Type 0 where
  loaded : Config → Loaded
  refused : Error → Loaded

-- The files by their paths.
abbrev pub Disk : Type 0
Disk = List ℕ → File

abbrev pub put_file : Disk → List ℕ → File → Disk
put_file disk path file p = if equal p path then file else disk p

unfoldable pub default_config_dir : Os → Option (List ℕ)
default_config_dir os = map (λ (home : List ℕ). os.join home (codes ".xbslink-ng")) os.user_home_dir

unfoldable pub default_config_path : Os → Option (List ℕ)
unfolding default_config_dir
default_config_path os =
    map (λ (d : List ℕ). os.join d (codes "config.json")) (default_config_dir os)

abbrev pub parsed : Option Config → Loaded
parsed none = refused bad_parse
parsed (some c) = loaded c

abbrev pub read_config : Json → File → Loaded
read_config json (content bytes) = parsed (json.unmarshal bytes)
read_config json not_exist = loaded empty_config
read_config json unreadable = refused bad_read

unfoldable pub load_from : Json → List ℕ → Disk → Loaded
load_from json path disk = read_config json (disk path)

-- At the default path, or the error of looking for it.
abbrev pub load_at : Json → Disk → Option (List ℕ) → Loaded
load_at json disk none = refused no_home
load_at json disk (some path) = load_from json path disk

unfoldable pub load : Os → Json → Disk → Loaded
unfolding default_config_path
load os json disk = load_at json disk (default_config_path os)

abbrev pub after_write : Disk → List ℕ → List ℕ → Written → Disk × Option Error
after_write disk path bytes complete = (put_file disk path (content bytes), none)
after_write disk path bytes (failed left) = (put_file disk path left, some bad_write)

abbrev pub write_marshalled : Os → List ℕ → Disk → Option (List ℕ) → Disk × Option Error
write_marshalled os path disk none = (disk, some bad_marshal)
write_marshalled os path disk (some bytes) = after_write disk path bytes (os.write_file path bytes)

-- `SaveTo`: the disk afterwards, and the error.
unfoldable pub save_to : Os → Json → Config → List ℕ → Disk → Disk × Option Error
save_to os json c path disk =
    if os.mkdir_all (os.dir path)
    then write_marshalled os path disk (json.marshal_indent c)
    else (disk, some bad_mkdir)

abbrev pub save_at : Os → Json → Config → Disk → Option (List ℕ) → Disk × Option Error
save_at os json c disk none = (disk, some no_home)
save_at os json c disk (some path) = save_to os json c path disk

unfoldable pub save : Os → Json → Config → Disk → Disk × Option Error
unfolding default_config_path
save os json c disk = save_at os json c disk (default_config_path os)

-- `GetXboxMAC`; none is the nil address.
unfoldable pub get_xbox_mac : Config → Option (List ℕ)
get_xbox_mac c = if equal c.last_xbox_mac [] then none else net_parse_mac c.last_xbox_mac

unfoldable pub set_xbox_mac : Config → List ℕ → Config
set_xbox_mac c mac = record c { last_xbox_mac = mac_string mac }
