-- ===== src/Plugins.antt =====
-- pkg/plugin/manager/manager.go: the plugin manager, which loads the data source and the provision
-- plugin that the configuration names. Custom loaders, the plugins that they or gRPC bring in and
-- go-plugin are parameters; `W` is the world that they and the config loader act on.
pub mod Load
pub mod Init
pub mod Grpc
pub mod Laws
pub mod Settings
use cofidectl.Common.{
  ℕ, zero, suc, String, ◌==◌, Bool, true, false, not, ◌&&◌, Option, none, some, List, [], ◌∷◌,
  if◌then◌else◌, get_text, is_some,
}
use cofidectl.Common.Errors.{
  Kind, Error, Result, ok, err, panic, wrap, source_kind, provision_kind, config_missing,
  plugin_mismatch, plugin_config_mismatch, already_loaded, empty_plugin_name, no_plugin_config,
  wrong_interface, client_failed, ping_failed, dispense_failed,
}
use cofidectl.Common.Action.{Action, pure, raise, lift, gets, modify, fail_if, ◌>>=◌, ◌>>◌}
use cofidectl.Common.Maps.{lookup, assign, equal_func}
use cofidectl.Values.{Fields}
use cofidectl.Config.{Config, PluginConfig, new_config}
use cofidectl.Config.Messages.{Plugins}
use cofidectl.Config.Loader.{Loader}
use cofidectl.Proto.{ProtoLib, clone_plugins, clone_struct, structs_equal}
use cofidectl.Local.{LocalDataSource, new_local_data_source}

abbrev pub local_ds_plugin_name : String
local_ds_plugin_name = "local"

abbrev pub spire_helm_provision_plugin_name : String
spire_helm_provision_plugin_name = "spire-helm"

-- `GetDefaultPlugins`
unfoldable pub get_default_plugins : Plugins
get_default_plugins = record {
  data_source = some local_ds_plugin_name;
  provision = some spire_helm_provision_plugin_name;
}

-- A map that may be nil has no entries then.
abbrev pub entries : Option PluginConfig → PluginConfig
entries none = []
entries (some configs) = configs

-- The generated getters, which a nil message has too.
abbrev pub data_source_of : Option Plugins → String
data_source_of none = ""
data_source_of (some plugins) = get_text plugins.data_source

abbrev pub provision_of : Option Plugins → String
provision_of none = ""
provision_of (some plugins) = get_text plugins.provision

-- The local data source with its loader and the configuration that it read, or another one.
pub data Source (W D : Type 0) : Type 0 where
  local : Loader W → Config → Source W D
  other_source : D → Source W D

pub data Provision (P : Type 0) : Type 0 where
  spire_helm : Provision P
  other_provision : P → Provision P

-- `PluginLoader`, as a custom loader implements it: `none` for a plugin that it does not support.
pub record PluginLoader (W D P : Type 0) : Type 0 where
  pub load_data_source : String → Action W (Option D)
  pub load_provision : String → Action W (Option P)

-- `grpcPlugin`
pub record GrpcPlugin (Client D P : Type 0) : Type 0 where
  pub client : Option Client
  pub source : Option D
  pub provision : Option P

-- `grpcPluginLoader`
abbrev pub GrpcPluginLoader : Type 0 → Type 0 → Type 0 → Type 0 → Type 0
GrpcPluginLoader W Client D P = String → Option Plugins → Action W (GrpcPlugin Client D P)

-- The effects of what the manager calls: the `Validate` methods of other plugins, and `Kill`.
pub record Outside (W Client D P : Type 0) : Type 0 where
  pub validate_source : D → Action W (Unit {0})
  pub validate_provision : P → Action W (Unit {0})
  pub kill : Client → W → W

-- An entry of `loaders`: the custom loader, or the pointer to the default one.
pub data LoaderEntry (W D P : Type 0) : Type 0 where
  custom_loader : PluginLoader W D P → LoaderEntry W D P
  default_loader : LoaderEntry W D P

-- `default_config_loader` is the `configLoader` of the default plugin loader.
pub record PluginManager (W Client D P : Type 0) : Type 0 where
  pub config_loader : Loader W
  pub default_config_loader : Loader W
  pub loaders : List (LoaderEntry W D P)
  pub grpc_plugin_loader : GrpcPluginLoader W Client D P
  pub source : Option (Source W D)
  pub provision : Option (Provision P)
  pub clients : List (String × Option Client)

-- The manager and the world.
pub record Running (W Client D P : Type 0) : Type 0 where
  pub manager : PluginManager W Client D P
  pub world : W

abbrev pub entries_of : {W D P : Type 0} → Option (PluginLoader W D P) → List (LoaderEntry W D P)
entries_of none = default_loader ∷ []
entries_of (some custom) = custom_loader custom ∷ default_loader ∷ []

-- The assignment to the map `cfg.PluginConfig`, which panics if the map is nil.
abbrev pub assign_config : String → Fields → Config → Result Config
assign_config name struct c = elim c.plugin_config [
  | none ↦ panic
  | some configs ↦ ok (record c { plugin_config = some (assign name struct configs) })
]

module _ {W Client D P : Type 0} where
  -- An effect on the world.
  abbrev pub outside : {A : Type 0} → Action W A → Action (Running W Client D P) A
  outside m s = let (r, w) = m s.world in (r, record s { world = w })

  -- `NewManager`, given `loadGRPCPlugin`
  unfoldable pub new_manager :
      GrpcPluginLoader W Client D P
      → Loader W
      → Option (PluginLoader W D P)
      → PluginManager W Client D P
  new_manager grpc loader custom = record {
    config_loader = loader;
    default_config_loader = loader;
    loaders = entries_of custom;
    grpc_plugin_loader = grpc;
    source = none;
    provision = none;
    clients = [];
  }

  -- `UpdateConfigLoader`
  unfoldable pub update_config_loader :
      Loader W → PluginManager W Client D P → PluginManager W Client D P
  update_config_loader loader pm = record pm {
    config_loader = loader;
    default_config_loader = loader;
    source = none;
    provision = none;
  }

  abbrev pub read : Action (Running W Client D P) Config
  read s = (s.manager.config_loader.read s.world, s)

  abbrev pub write : Config → Action (Running W Client D P) (Unit {0})
  write c s = outside (s.manager.config_loader.write c) s

  -- `readConfig`
  unfoldable pub read_config : Action (Running W Client D P) Config
  read_config = do
    exists ← λ s. (s.manager.config_loader.exists s.world, s)
    fail_if (not exists) config_missing
    read

  abbrev pub configured : ProtoLib → String → Option Fields → Action (Running W Client D P) Fields
  configured lib name none = raise (no_plugin_config name)
  configured lib name (some struct) = lift (clone_struct lib struct)

  -- `GetPluginConfig`
  unfoldable pub get_plugin_config : ProtoLib → String → Action (Running W Client D P) Fields
  get_plugin_config lib name = do
    c ← read
    configured lib name (lookup name (entries c.plugin_config))

  -- `SetPluginConfig`
  unfoldable pub set_plugin_config :
      ProtoLib → String → Fields → Action (Running W Client D P) (Unit {0})
  set_plugin_config lib name struct = do
    c ← read
    copy ← lift (clone_struct lib struct)
    changed ← lift (assign_config name copy c)
    write changed
