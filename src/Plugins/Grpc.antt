-- ===== src/Plugins/Grpc.antt =====
-- pkg/plugin/manager/manager.go: the default loading of a gRPC plugin. The go-plugin library, `user.Current` and
-- `filepath.Join` are parameters. Also `GetPluginDir` and `GetPluginPath` of pkg/plugin/cliplugin.go.
use cofidectl.Common.{
  String, ◌==◌, Bool, true, false, Option, none, some, List, [], ◌∷◌, ◌++◌, if◌then◌else◌, is_some,
  ◌≡◌, arith,
}
use cofidectl.Common.Errors.{
  Result, ok, err, panic, client_failed, ping_failed, dispense_failed, wrong_interface, home_failed,
}
use cofidectl.Common.Action.{Action, in_context, pure, lift, ◌>>=◌, ◌>>◌}
use cofidectl.Config.Messages.{Plugins}
use cofidectl.Plugins.{GrpcPlugin, data_source_of, provision_of}

-- go-plugin's `NewClient`, `Client`, `Ping`, `Dispense` and `Kill`, with the type assertions to the
-- plugin interfaces and their `Validate`. A client is made for a path and a set of plugin names.
pub record GoPlugin (W Client Conn Raw D P : Type 0) : Type 0 where
  pub home_dir : Action W String
  pub join : String → String → String
  pub new_client : String → List String → W → Client × W
  pub connect : Client → Action W Conn
  pub ping : Conn → Action W (Unit {0})
  pub dispense : Conn → String → Action W Raw
  pub as_source : Raw → Option D
  pub as_provision : Raw → Option P
  pub validate_source : D → Action W (Unit {0})
  pub validate_provision : P → Action W (Unit {0})
  pub kill : Client → W → W

abbrev pub data_source_plugin_name : String
data_source_plugin_name = "data_source"

abbrev pub provision_plugin_name : String
provision_plugin_name = "provision"

abbrev relative_plugin_dir : String
relative_plugin_dir = ".cofide/plugins"

abbrev asserted : {A : Type 0} → String → Option A → Result A
asserted name none = err (wrong_interface name)
asserted name (some a) = ok a

-- `pluginSet`
abbrev pub plugin_set : String → Option Plugins → List String
plugin_set name plugins =
    (if data_source_of plugins == name then data_source_plugin_name ∷ [] else [])
    ++ (if provision_of plugins == name then provision_plugin_name ∷ [] else [])

module _ {W Client Conn Raw D P : Type 0} (go : GoPlugin W Client Conn Raw D P) where
  unfoldable pub get_plugin_dir : Action W String
  get_plugin_dir = do
    home ← in_context home_failed go.home_dir
    pure (go.join home relative_plugin_dir)

  unfoldable pub get_plugin_path : String → Action W String
  unfolding get_plugin_dir
  get_plugin_path name = do dir ← get_plugin_dir; pure (go.join dir name)

  -- `dispensePlugin`, at the type that the assertion is to
  unfoldable pub dispense_plugin :
      {A : Type 0} → (Raw → Option A) → (A → Action W (Unit {0})) → Conn → String → Action W A
  dispense_plugin assert validate conn name = do
    raw ← in_context (dispense_failed name) (go.dispense conn name)
    plugin ← lift (asserted name (assert raw))
    validate plugin
    pure plugin

  abbrev only_if : {A : Type 0} → Bool → Action W A → Action W (Option A)
  only_if false m w = (ok none, w)
  only_if true m w =
      let (r, w') = m w in
      elim r [ ok a ↦ (ok (some a), w') | err e ↦ (err e, w') | panic ↦ (panic, w') ]

  -- `startGRPCPlugin`
  unfoldable pub start_grpc_plugin :
      Client → String → Option Plugins → Action W (GrpcPlugin Client D P)
  unfolding dispense_plugin
  start_grpc_plugin client name plugins = do
    conn ← in_context client_failed (go.connect client)
    in_context ping_failed (go.ping conn)
    source ←
        only_if (data_source_of plugins == name)
          (dispense_plugin go.as_source go.validate_source conn data_source_plugin_name)
    provision ←
        only_if (provision_of plugins == name)
          (dispense_plugin go.as_provision go.validate_provision conn provision_plugin_name)
    pure (record { client = some client; source = source; provision = provision })

  abbrev kill_on_error : {A : Type 0} → Client → Result A × W → Result A × W
  kill_on_error client (ok a, w) = (ok a, w)
  kill_on_error client (err e, w) = (err e, go.kill client w)
  kill_on_error client (panic, w) = (panic, w)

  abbrev with_client : String → Option Plugins → Client × W → Result (GrpcPlugin Client D P) × W
  unfolding start_grpc_plugin
  with_client name plugins (client, w) =
      kill_on_error client (start_grpc_plugin client name plugins w)

  -- `loadGRPCPlugin`
  unfoldable pub load_grpc_plugin : String → Option Plugins → Action W (GrpcPlugin Client D P)
  unfolding start_grpc_plugin get_plugin_path
  load_grpc_plugin name plugins = do
    path ← get_plugin_path name
    λ w. with_client name plugins (go.new_client path (plugin_set name plugins) w)

  -- A gRPC plugin that loads has a data source exactly if the configuration names it as the data
  -- source, and a provision plugin exactly if it is named as that.
  pub load_grpc_plugin_parts :
      (name : String) (plugins : Option Plugins) (w : W) (loaded : GrpcPlugin Client D P)
      → (load_grpc_plugin name plugins w).0 ≡ ok loaded
      → (is_some loaded.source ≡ (data_source_of plugins == name))
        × (is_some loaded.provision ≡ (provision_of plugins == name))
  unfolding load_grpc_plugin
  load_grpc_plugin_parts name plugins w loaded h = ground arith
