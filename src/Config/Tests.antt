-- ===== src/Config/Tests.antt =====
-- internal/config/config.go: the model on a concrete file system.
use xbslink_ng.Base.{◌≡◌, refl, some, none, arith, codes}
use xbslink_ng.Config.{
  loaded, empty_config, load, load_from, save, get_xbox_mac, set_xbox_mac, default_config_path,
  default_config_dir,
}
use xbslink_ng.Config.Saved.{save-load}
use xbslink_ng.Config.Sample.{printed, json, codec, os, no_files, console}

nothing_saved : load os json no_files ≡ loaded empty_config
unfolding load load_from default_config_path default_config_dir
nothing_saved = refl

save-load_example :
    ((save os json (set_xbox_mac empty_config console) no_files).1 ≡ none)
    × (load os json (save os json (set_xbox_mac empty_config console) no_files).0
        ≡ loaded (set_xbox_mac empty_config console))
    × (get_xbox_mac (set_xbox_mac empty_config console) ≡ some console)
unfolding default_config_path default_config_dir
save-load_example =
    save-load os json printed codec empty_config console refl (omega arith)
      (codes "/home/u/.xbslink-ng/config.json") no_files refl refl refl
