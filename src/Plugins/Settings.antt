-- ===== src/Plugins/Settings.antt =====
-- pkg/plugin/manager/manager.go: what `Init` and `SetPluginConfig` leave in the configuration.
use cofidectl.Common.{
  ◌≡◌, refl, String, ◌==◌, true, false, Option, none, some, [], if◌then◌else◌, arith, ap,
  test_of_eq, get_text,
}
use cofidectl.Common.Maps.{lookup, assign, lookup-assign, equal_func_refl, IsMap}
use cofidectl.Common.Errors.{ok, err, no_plugin_config}
use cofidectl.Values.{Fields}
use cofidectl.Config.{Config, IsComplete, PluginConfig, new_config}
use cofidectl.Config.Messages.{Plugins}
use cofidectl.Config.Loader.Persistence.{Persists}
use cofidectl.Proto.{ProtoLib, IsProtoLib, clone_plugins_lem, clone_struct_lem, structs_equal}
use cofidectl.Plugins.{Running, entries, write, configured, get_plugin_config, set_plugin_config}
use cofidectl.Plugins.Init.{init, check_existing, write_new, or_default, or_kept}

-- The configuration that `Init` writes where there is none.
abbrev pub initial : Option Plugins → Option PluginConfig → Config
initial requested configs = record new_config {
  plugins = some (or_default requested);
  plugin_config = or_kept configs (some []);
}

-- It has its maps.
pub initial-IsComplete :
    (requested : Option Plugins) (configs : Option PluginConfig)
    → IsComplete (initial requested configs)
initial-IsComplete requested none = record { has_plugins = λ e. cc; has_plugin_config = λ e. cc }
initial-IsComplete requested (some configs) = record {
  has_plugins = λ e. cc;
  has_plugin_config = λ e. cc;
}

entries-or_kept :
    (configs : Option PluginConfig) → entries (or_kept configs (some [])) ≡ entries configs
entries-or_kept none = refl
entries-or_kept (some configs) = refl

module _ {W Client D P : Type 0} (lib : ProtoLib) (laws : IsProtoLib lib) where
  set_plugin_config_writes :
      (name : String) (struct : Fields) (s : Running W Client D P) (c : Config)
      (configs : PluginConfig)
      → s.manager.config_loader.read s.world ≡ ok c
      → c.plugin_config ≡ some configs
      → set_plugin_config lib name struct s
        ≡ write (record c { plugin_config = some (assign name struct configs) }) s
  unfolding set_plugin_config
  set_plugin_config_writes name struct s c configs hr hc =
      rw (hr, clone_struct_lem lib laws struct, hc) refl

  configured_lem :
      (name : String) (found : Option Fields) (s : Running W Client D P)
      → (configured lib name found s).0
        ≡ elim found [ none ↦ err (no_plugin_config name) | some struct ↦ ok struct ]
  configured_lem name none s = refl
  configured_lem name (some struct) s = clone_struct_lem lib laws struct

  get_plugin_config_lem :
      (name : String) (s : Running W Client D P) (c : Config) (configs : PluginConfig)
      → s.manager.config_loader.read s.world ≡ ok c
      → c.plugin_config ≡ some configs
      → (get_plugin_config lib name s).0 ≡ elim (lookup name configs) [
        | none ↦ err (no_plugin_config name)
        | some struct ↦ ok struct
      ]
  unfolding get_plugin_config
  get_plugin_config_lem name s c configs hr hc =
      rw (hr, hc) (configured_lem name (lookup name configs) s)

  -- With a configuration that can be read and has a map of plugin configurations, and a loader
  -- that keeps what it writes, a successful `SetPluginConfig` makes the plugin's configuration
  -- the one that was set and keeps those of the other plugins.
  pub get_plugin_config-set_plugin_config :
      (Storable : Config → Type 0) (name other : String) (struct : Fields)
      (s : Running W Client D P) (c : Config) (configs : PluginConfig)
      → Persists Storable s.manager.config_loader
      → s.manager.config_loader.read s.world ≡ ok c
      → c.plugin_config ≡ some configs
      → Storable (record c { plugin_config = some (assign name struct configs) })
      → (set_plugin_config lib name struct s).0 ≡ ok tt
      → (get_plugin_config lib other (set_plugin_config lib name struct s).1).0
        ≡ (if name == other then ok struct else (get_plugin_config lib other s).0)
  get_plugin_config-set_plugin_config Storable name other struct s c configs p hr hc hs h =
      let writes = set_plugin_config_writes name struct s c configs hr hc in
      let c' = record c { plugin_config = some (assign name struct configs) } in
      let done : (s.manager.config_loader.write c' s.world).0 ≡ ok tt = rw writes at h in
      let reads =
        (p.stored c' s.world (s.manager.config_loader.write c' s.world).1 hs
          (ap (λ r. (r, (s.manager.config_loader.write c' s.world).1)) done)).1 in
      rw
        (
          writes,
          get_plugin_config_lem other (write c' s).1 c' (assign name struct configs) reads refl,
          get_plugin_config_lem other s c configs hr hc,
          lookup-assign name other struct configs,
        )
        (ground arith)

  init_writes :
      (requested : Option Plugins) (configs : Option PluginConfig) (s : Running W Client D P)
      → s.manager.config_loader.exists s.world ≡ ok false
      → init lib requested configs s ≡ write (initial requested configs) s
  unfolding init write_new new_config
  init_writes requested configs s he =
      rw (he, clone_plugins_lem lib laws (or_default requested)) refl

  init_on_initial :
      (requested : Option Plugins) (configs : Option PluginConfig) (s : Running W Client D P)
      → IsMap (entries configs)
      → s.manager.config_loader.exists s.world ≡ ok true
      → s.manager.config_loader.read s.world ≡ ok (initial requested configs)
      → init lib requested configs s ≡ (ok tt, s)
  unfolding init check_existing structs_equal
  init_on_initial requested configs s hm he hr =
      let plugins = or_default requested in
      let same_source =
        test_of_eq (get_text plugins.data_source) (get_text plugins.data_source) refl in
      let same_provision =
        test_of_eq (get_text plugins.provision) (get_text plugins.provision) refl in
      let same_configs =
        equal_func_refl lib.equal_structs (entries configs) (λ v. (laws.equal_structs v v).1 refl)
          hm in
      rw (he, hr, same_source, same_provision, entries-or_kept configs, same_configs) refl

  -- Where there was no configuration, the first `Init` succeeded, no plugin name stands twice in its
  -- arguments, and the loader keeps the configurations of a kind that the initial one is of, a second
  -- `Init` with the same arguments succeeds and changes nothing.
  pub init_again :
      (Storable : Config → Type 0) (requested : Option Plugins) (configs : Option PluginConfig)
      (s : Running W Client D P)
      → Persists Storable s.manager.config_loader
      → Storable (initial requested configs)
      → IsMap (entries configs)
      → s.manager.config_loader.exists s.world ≡ ok false
      → (init lib requested configs s).0 ≡ ok tt
      → init lib requested configs (init lib requested configs s).1
        ≡ (ok tt, (init lib requested configs s).1)
  init_again Storable requested configs s p hs hm he h =
      let writes = init_writes requested configs s he in
      let c = initial requested configs in
      let done : (s.manager.config_loader.write c s.world).0 ≡ ok tt = rw writes at h in
      let (found, reads) =
        p.stored c s.world (s.manager.config_loader.write c s.world).1 hs
          (ap (λ r. (r, (s.manager.config_loader.write c s.world).1)) done) in
      rw writes (init_on_initial requested configs (write c s).1 hm found reads)
