-- ===== src/Plugins/Load.antt =====
-- pkg/plugin/manager/manager.go: the loading of the two plugins and `Shutdown`.
use cofidectl.Common.{String, ◌==◌, Option, none, some, List, [], ◌∷◌, if◌then◌else◌, is_some}
use cofidectl.Common.Maps.{assign}
use cofidectl.Common.Errors.{
  ok, err, panic, source_kind, provision_kind, already_loaded, empty_plugin_name,
}
use cofidectl.Common.Action.{Action, pure, gets, fail_if, ◌>>=◌, ◌>>◌}
use cofidectl.Config.Messages.{Plugins}
use cofidectl.Local.{new_local_data_source}
use cofidectl.Plugins.{
  Running, PluginManager, Outside, LoaderEntry, custom_loader, default_loader, Source, local,
  other_source, Provision, spire_helm, other_provision, data_source_of, provision_of, outside,
  read_config, local_ds_plugin_name, spire_helm_provision_plugin_name,
}

module _ {W Client D P : Type 0} (o : Outside W Client D P) where
  abbrev pub change_manager :
      (PluginManager W Client D P → PluginManager W Client D P)
      → Action (Running W Client D P) (Unit {0})
  change_manager f s = (ok tt, record s { manager = f s.manager })

  -- `LoadDataSource` of the default loader
  unfoldable pub default_load_data_source :
      String → Action (Running W Client D P) (Option (Source W D))
  default_load_data_source name s =
      if name == local_ds_plugin_name
      then (
        elim (new_local_data_source s.manager.default_config_loader s.world) [
          | ok lds ↦ ok (some (local s.manager.default_config_loader lds.config))
          | err e ↦ err e
          | panic ↦ panic
        ],
        s,
      )
      else (ok none, s)

  -- `LoadProvision` of the default loader
  unfoldable pub default_load_provision :
      String → Action (Running W Client D P) (Option (Provision P))
  default_load_provision name s =
      if name == spire_helm_provision_plugin_name then (ok (some spire_helm), s) else (ok none, s)

  abbrev pub as_source : Option D → Option (Source W D)
  as_source none = none
  as_source (some d) = some (other_source d)

  abbrev pub as_provision : Option P → Option (Provision P)
  as_provision none = none
  as_provision (some p) = some (other_provision p)

  abbrev pub load_source_from :
      LoaderEntry W D P → String → Action (Running W Client D P) (Option (Source W D))
  unfolding default_load_data_source
  load_source_from (custom_loader custom) name = do
    d ← outside (custom.load_data_source name)
    pure (as_source d)
  load_source_from default_loader name = default_load_data_source name

  abbrev pub load_provision_from :
      LoaderEntry W D P → String → Action (Running W Client D P) (Option (Provision P))
  unfolding default_load_provision
  load_provision_from (custom_loader custom) name = do
    p ← outside (custom.load_provision name)
    pure (as_provision p)
  load_provision_from default_loader name = default_load_provision name

  abbrev pub validate_source : Source W D → Action (Running W Client D P) (Unit {0})
  validate_source (local loader c) = pure tt
  validate_source (other_source d) = outside (o.validate_source d)

  abbrev pub validate_provision : Provision P → Action (Running W Client D P) (Unit {0})
  validate_provision spire_helm = pure tt
  validate_provision (other_provision p) = outside (o.validate_provision p)

  -- The body of the loop over the loaders, given the rest of the loop.
  abbrev pub source_or :
      Action (Running W Client D P) (Option (Source W D))
      → Option (Source W D)
      → Action (Running W Client D P) (Option (Source W D))
  source_or rest none = rest
  source_or rest (some ds) = do
    validate_source ds
    change_manager (λ pm. record pm { source = some ds })
    pure (some ds)

  abbrev pub provision_or :
      Action (Running W Client D P) (Option (Provision P))
      → Option (Provision P)
      → Action (Running W Client D P) (Option (Provision P))
  provision_or rest none = rest
  provision_or rest (some p) = do
    validate_provision p
    change_manager (λ pm. record pm { provision = some p })
    pure (some p)

  -- The loops over `pm.loaders`. The answer is the plugin found; it is in the manager then.
  unfoldable pub search_sources :
      String → List (LoaderEntry W D P) → Action (Running W Client D P) (Option (Source W D))
  search_sources name [] = pure none
  search_sources name (l ∷ ls) =
      let rest = search_sources name ls in load_source_from l name >>= source_or rest

  unfoldable pub search_provisions :
      String → List (LoaderEntry W D P) → Action (Running W Client D P) (Option (Provision P))
  search_provisions name [] = pure none
  search_provisions name (l ∷ ls) =
      let rest = search_provisions name ls in load_provision_from l name >>= provision_or rest

  abbrev pub set_source : Option D → PluginManager W Client D P → PluginManager W Client D P
  set_source none pm = pm
  set_source (some d) pm = record pm { source = some (other_source d) }

  abbrev pub set_provision : Option P → PluginManager W Client D P → PluginManager W Client D P
  set_provision none pm = pm
  set_provision (some p) pm = record pm { provision = some (other_provision p) }

  -- `pm.loadGRPCPlugin`
  unfoldable pub load_grpc_plugin :
      String → Option Plugins → Action (Running W Client D P) (Unit {0})
  load_grpc_plugin name plugins = do
    loaded ← λ s. outside (s.manager.grpc_plugin_loader name plugins) s
    change_manager (set_source loaded.source)
    change_manager (set_provision loaded.provision)
    change_manager (λ pm. record pm { clients = assign name loaded.client pm.clients })

  -- What follows the loop: a gRPC plugin is loaded if none was found.
  abbrev pub or_grpc_source :
      String
      → Option Plugins
      → Option (Source W D)
      → Action (Running W Client D P) (Option (Source W D))
  unfolding load_grpc_plugin
  or_grpc_source name plugins (some ds) = pure (some ds)
  or_grpc_source name plugins none = load_grpc_plugin name plugins >> gets (λ s. s.manager.source)

  -- `loadDataSource`. A nil data source without an error is `none`.
  unfoldable pub load_data_source : Action (Running W Client D P) (Option (Source W D))
  unfolding read_config search_sources load_grpc_plugin
  load_data_source = do
    loaded ← gets (λ s. is_some s.manager.source)
    fail_if loaded (already_loaded source_kind)
    c ← read_config
    let name = data_source_of c.plugins
    fail_if (name == "") (empty_plugin_name source_kind)
    loaders ← gets (λ s. s.manager.loaders)
    found ← search_sources name loaders
    or_grpc_source name c.plugins found

  -- `GetDataSource`
  unfoldable pub get_data_source : Action (Running W Client D P) (Option (Source W D))
  unfolding load_data_source
  get_data_source s = elim s.manager.source [
    | some ds ↦ (ok (some ds), s)
    | none ↦ load_data_source s
  ]

  abbrev pub or_grpc_provision :
      String
      → Option Plugins
      → Option (Provision P)
      → Action (Running W Client D P) (Option (Provision P))
  unfolding load_grpc_plugin
  or_grpc_provision name plugins (some p) = pure (some p)
  or_grpc_provision name plugins none =
      load_grpc_plugin name plugins >> gets (λ s. s.manager.provision)

  -- `loadProvision`
  unfoldable pub load_provision : Action (Running W Client D P) (Option (Provision P))
  unfolding read_config search_provisions load_grpc_plugin
  load_provision = do
    loaded ← gets (λ s. is_some s.manager.provision)
    fail_if loaded (already_loaded provision_kind)
    c ← read_config
    let name = provision_of c.plugins
    fail_if (name == "") (empty_plugin_name provision_kind)
    loaders ← gets (λ s. s.manager.loaders)
    found ← search_provisions name loaders
    or_grpc_provision name c.plugins found

  -- `GetProvision`
  unfoldable pub get_provision : Action (Running W Client D P) (Option (Provision P))
  unfolding load_provision
  get_provision s = elim s.manager.provision [ some p ↦ (ok (some p), s) | none ↦ load_provision s ]

  -- The loop of `Shutdown` that kills each client.
  unfoldable pub kill_all : List (String × Option Client) → W → W
  kill_all [] w = w
  kill_all ((name, none) ∷ clients) w = kill_all clients w
  kill_all ((name, some client) ∷ clients) w = kill_all clients (o.kill client w)

  -- `Shutdown`
  unfoldable pub shutdown : Running W Client D P → Running W Client D P
  unfolding kill_all
  shutdown s = record {
    manager = record s.manager { source = none; provision = none; clients = [] };
    world = kill_all s.manager.clients s.world;
  }
