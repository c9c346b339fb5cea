-- ===== src/Process/Config.antt =====
-- pkg/config/config.go. viper, which reads and decodes the file, is a parameter; `M` is the metadata
-- it holds.
use kubesphere_schedule.Base.Results.{ok, failed, Result}
use kubesphere_schedule.Clients.Options.{
  new_schedule_options, new_kubernetes_options, ScheduleOptions, Files, KubernetesOptions, Floats,
}
use kubesphere_schedule.Base.{
  ◌∷◌, ◌++◌, true, some, not, none, lookup, join, is_some, insert, if◌then◌else◌, false, [], String,
  Option, List, Bool,
}

-- `none` is a nil pointer.
pub record Config (F : Type 0) : Type 0 where
  pub kubernetes_options : Option (KubernetesOptions F)
  pub schedule_options : Option ScheduleOptions

-- viper: `ReadInConfig` fills its state or fails, with `ConfigFileNotFoundError` or another error;
-- `Unmarshal` decodes the state over a configuration, which an error leaves partly changed.
pub data ReadError : Type 0 where
  config_file_not_found : ReadError
  other_error : String → ReadError

pub record Viper (F M : Type 0) : Type 0 where
  pub read_in_config : M → Option ReadError × M
  pub unmarshal : M → Config F → Config F × Option String

-- The singleton: `load_done` and `watch_done` say that the function of `loadOnce` and of `watchOnce`
-- has run; the channel is the configurations sent on it that are not received yet.
pub record Store (F M : Type 0) : Type 0 where
  pub cfg : Config F
  pub load_done : Bool
  pub watch_done : Bool
  pub cfg_change_ch : List (Config F)
  pub viper_state : M

unfoldable pub new_config : {F : Type 0} → Floats F → Files → Config F
unfolding new_kubernetes_options new_schedule_options
new_config floats files = record {
  kubernetes_options = some (new_kubernetes_options floats files);
  schedule_options = some new_schedule_options;
}

-- `defaultConfig`, behind the settings of viper.
unfoldable pub default_config : {F M : Type 0} → Floats F → Files → M → Store F M
unfolding new_config
default_config floats files m = record {
  cfg = new_config floats files;
  load_done = false;
  watch_done = false;
  cfg_change_ch = [];
  viper_state = m;
}

module _ {F M : Type 0} (viper : Viper F M) where
  -- The function of `loadOnce`: the error of the read is overwritten by that of `Unmarshal`.
  abbrev pub load_once : Store F M → Option String × Store F M
  load_once c =
      let (read_err, m) = viper.read_in_config c.viper_state in
      let (cfg, err) = viper.unmarshal m c.cfg in
      (err, record c { cfg = cfg; load_done = true; viper_state = m })

  unfoldable pub load_from_disk : Store F M → (Config F × Option String) × Store F M
  load_from_disk c =
      let (err, c') = load_once c in if c.load_done then ((c.cfg, none), c) else ((c'.cfg, err), c')

  unfoldable pub try_load_from_disk : Store F M → (Config F × Option String) × Store F M
  unfolding load_from_disk
  try_load_from_disk c = load_from_disk c

  unfoldable pub watch_config : Store F M → List (Config F) × Store F M
  watch_config c = (c.cfg_change_ch, record c { watch_done = true })

  unfoldable pub watch_config_change : Store F M → List (Config F) × Store F M
  unfolding watch_config
  watch_config_change c = watch_config c

  -- The function given to `OnConfigChange`, which viper calls once it is watched, with its new state;
  -- the channel has no buffer, so the function waits until its configuration is received.
  unfoldable pub on_config_change : Floats F → Files → M → Store F M → Store F M
  unfolding new_config
  on_config_change floats files m c =
      let (cfg, err) = viper.unmarshal m (new_config floats files) in
      if not c.watch_done then record c { viper_state = m } else elim err [
        | some e ↦ record c { viper_state = m }
        | none ↦ record c { viper_state = m; cfg_change_ch = c.cfg_change_ch ++ (cfg ∷ []) }
      ]

-- `ToMap`: which options are given, by the names of the fields in JSON; nil gives an empty map.
unfoldable pub to_map : {F : Type 0} → Option (Config F) → List (String × Bool)
unfolding insert
to_map none = []
to_map (some conf) =
    insert "schedule" (is_some conf.schedule_options)
      (insert "kubernetes" (is_some conf.kubernetes_options) [])

-- `GetFromConfigMap` over the data of the map; `decode` is `yaml.Unmarshal` into an empty `Config`.
unfoldable pub get_from_config_map :
    {F : Type 0} → (String → Result (Config F)) → List (String × String) → Result (Config F)
unfolding lookup
get_from_config_map decode data' = elim (lookup "kubesphere.yaml" data') [
  | none ↦ failed "failed to get configmap schedule.yaml value"
  | some value ↦ elim (decode value) [
    | failed err ↦ failed (join "failed to unmarshal value from configmap. err: " err)
    | ok c ↦ ok c
  ]
]
