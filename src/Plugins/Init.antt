-- ===== src/Plugins/Init.antt =====
-- pkg/plugin/manager/manager.go: `Init`, which makes the configuration or checks the one there is.
use cofidectl.Common.{◌==◌, Bool, false, not, Option, none, some, if◌then◌else◌}
use cofidectl.Common.Maps.{equal_func}
use cofidectl.Common.Errors.{
  Result, ok, err, panic, source_kind, provision_kind, plugin_mismatch, plugin_config_mismatch,
}
use cofidectl.Common.Action.{Action, lift, fail_if, ◌>>=◌, ◌>>◌}
use cofidectl.Config.{PluginConfig, new_config}
use cofidectl.Config.Messages.{Plugins}
use cofidectl.Proto.{ProtoLib, clone_plugins, structs_equal}
use cofidectl.Plugins.{
  Running, get_default_plugins, data_source_of, provision_of, entries, read, write,
}

abbrev pub or_default : Option Plugins → Plugins
or_default none = get_default_plugins
or_default (some plugins) = plugins

-- `exists, _ := pm.configLoader.Exists()`: the answer is false beside an error.
abbrev pub exists_or_false : Result Bool → Result Bool
exists_or_false (ok b) = ok b
exists_or_false (err e) = ok false
exists_or_false panic = panic

-- `if pluginConfig != nil { cfg.PluginConfig = pluginConfig }`
abbrev pub or_kept : Option PluginConfig → Option PluginConfig → Option PluginConfig
or_kept none kept = kept
or_kept (some configs) kept = some configs

module _ {W Client D P : Type 0} (lib : ProtoLib) where
  unfoldable pub check_existing :
      Plugins → Option PluginConfig → Action (Running W Client D P) (Unit {0})
  unfolding structs_equal
  check_existing plugins configs = do
    c ← read
    let ds = data_source_of (some plugins)
    fail_if (not (ds == data_source_of c.plugins))
        (plugin_mismatch source_kind (data_source_of c.plugins) ds)
    let provision = provision_of (some plugins)
    fail_if (not (provision_of c.plugins == provision))
        (plugin_mismatch provision_kind (provision_of c.plugins) provision)
    fail_if (not (equal_func (structs_equal lib) (entries c.plugin_config) (entries configs)))
        plugin_config_mismatch

  unfoldable pub write_new :
      Plugins → Option PluginConfig → Action (Running W Client D P) (Unit {0})
  write_new plugins configs = do
    copy ← lift (clone_plugins lib plugins)
    write (record new_config {
      plugins = some copy;
      plugin_config = or_kept configs new_config.plugin_config;
    })

  -- `Init`
  unfoldable pub init :
      Option Plugins → Option PluginConfig → Action (Running W Client D P) (Unit {0})
  init requested configs = do
    exists ← λ s. (exists_or_false (s.manager.config_loader.exists s.world), s)
    if exists
        then check_existing (or_default requested) configs
        else write_new (or_default requested) configs
