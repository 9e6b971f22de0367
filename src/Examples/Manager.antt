-- ===== src/Examples/Manager.antt =====
-- The plugin manager with no custom loader over the configuration that the store keeps.
use cofidectl.Common.{
  ◌≡◌, refl, String, ◌==◌, Option, none, some, [], false, if◌then◌else◌, is_some,
}
use cofidectl.Common.Errors.{ok, err, library}
use cofidectl.Common.Action.{Action}
use cofidectl.Values.{Fields, num, no_fields, field}
use cofidectl.Config.{Config, to_proto, new_config}
use cofidectl.Config.Loader.{Codec, MemoryStore, memory_loader, marshal_yaml}
use cofidectl.Config.Loader.Persistence.{IsStorable, memory_loader-Persists}
use cofidectl.Examples.Loaders.{
  one_message, one_message-IsCodec, message_of, encoded_self, ConfigProto_discrete,
}
use cofidectl.Config.Messages.{Plugins}
use cofidectl.Proto.{clone_plugins, clone_struct}
use cofidectl.Plugins.{
  Running, PluginManager, Outside, local, GrpcPlugin, data_source_of, provision_of, new_manager,
  update_config_loader, get_default_plugins, get_plugin_config, set_plugin_config,
}
use cofidectl.Plugins.Init.{init, write_new}
use cofidectl.Plugins.Load.{get_data_source}
use cofidectl.Plugins.Grpc.{
  GoPlugin, load_grpc_plugin, start_grpc_plugin, dispense_plugin, get_plugin_path, get_plugin_dir,
}
use cofidectl.Plugins.Grpc
use cofidectl.Plugins.Laws.{update_config_loader-get_data_source}
use cofidectl.Plugins.Settings.{
  initial, initial-IsComplete, init_again, get_plugin_config-set_plugin_config,
}
use cofidectl.Examples.Data.{copying, copying-IsProtoLib, keeping, keeping-Persists, small}

abbrev Store : Type 0
Store = Option Config

abbrev quiet : Outside Store (Unit {0}) (Unit {0}) (Unit {0})
quiet = record {
  validate_source = λ d w. (ok tt, w);
  validate_provision = λ p w. (ok tt, w);
  kill = λ c w. w;
}

abbrev no_grpc :
    String → Option Plugins → Action Store (GrpcPlugin (Unit {0}) (Unit {0}) (Unit {0}))
no_grpc name plugins w = (err (library "no such plugin"), w)

abbrev manager : PluginManager Store (Unit {0}) (Unit {0}) (Unit {0})
unfolding new_manager
manager = new_manager no_grpc keeping none

abbrev initialised : Config
unfolding get_default_plugins
initialised = record small { plugins = some get_default_plugins }

abbrev running : Running Store (Unit {0}) (Unit {0}) (Unit {0})
unfolding manager initialised
running = record { manager = manager; world = some initialised }

update_config_loader-get_data_source_example :
    (get_data_source quiet (record {
      manager =
          update_config_loader keeping
            (record (new_manager no_grpc keeping none) { source = some (local keeping small) });
      world = some initialised;
    })).0
    ≡ ok (some (local keeping initialised))
unfolding initialised get_default_plugins
update_config_loader-get_data_source_example =
    update_config_loader-get_data_source quiet no_grpc keeping keeping (some (local keeping small))
      (some initialised) initialised refl refl refl

-- An encoding of the configuration that `Init` makes, and a manager over the empty in-memory loader.
abbrev codec : Codec
unfolding get_default_plugins new_config
codec = one_message (message_of (initial none none))

abbrev no_grpc_in_memory :
    String → Option Plugins → Action MemoryStore (GrpcPlugin (Unit {0}) (Unit {0}) (Unit {0}))
no_grpc_in_memory name plugins w = (err (library "no such plugin"), w)

abbrev fresh : Running MemoryStore (Unit {0}) (Unit {0}) (Unit {0})
unfolding new_manager memory_loader
fresh = record {
  manager = new_manager no_grpc_in_memory (memory_loader codec) none;
  world = record { exists = false; bytes = [] };
}

initial-IsStorable : IsStorable codec (initial none none)
unfolding codec
initial-IsStorable = record { complete = initial-IsComplete none none; accepted = λ bs h. refl }

init_again_example :
    init copying none none (init copying none none fresh).1
    ≡ (ok tt, (init copying none none fresh).1)
unfolding fresh new_manager init write_new clone_plugins memory_loader marshal_yaml to_proto codec
    get_default_plugins new_config
init_again_example =
    init_again copying copying-IsProtoLib (IsStorable codec) none none fresh
      (memory_loader-Persists codec (one_message-IsCodec _)) initial-IsStorable tt refl
      (rw
        (encoded_self
          (ConfigProto_discrete (message_of (initial none none)) (message_of (initial none none))))
        refl)

abbrev settings : Fields
settings = field "limit" (num 3) no_fields

abbrev Anything : Config → Type 0
Anything c = Unit {0}

get_plugin_config-set_plugin_config_example :
    (get_plugin_config copying "vault" (set_plugin_config copying "vault" settings running).1).0
    ≡ (if "vault" == "vault" then ok settings else (get_plugin_config copying "vault" running).0)
unfolding running manager initialised new_manager set_plugin_config clone_struct
get_plugin_config-set_plugin_config_example =
    get_plugin_config-set_plugin_config copying copying-IsProtoLib Anything "vault" "vault" settings
      running initialised [] keeping-Persists refl refl tt refl

-- go-plugin with a server that has every plugin and works.
abbrev working : GoPlugin Store (Unit {0}) (Unit {0}) (Unit {0}) (Unit {0}) (Unit {0})
working = record {
  home_dir = λ w. (ok "/home/user", w);
  join = λ dir name. name;
  new_client = λ path names w. (tt, w);
  connect = λ c w. (ok tt, w);
  ping = λ c w. (ok tt, w);
  dispense = λ c name w. (ok tt, w);
  as_source = some;
  as_provision = some;
  validate_source = λ d w. (ok tt, w);
  validate_provision = λ p w. (ok tt, w);
  kill = λ c w. w;
}

abbrev remote : Option Plugins
remote = some (record { data_source = some "remote"; provision = some "spire-helm" })

abbrev remote_source : GrpcPlugin (Unit {0}) (Unit {0}) (Unit {0})
remote_source = record { client = some tt; source = some tt; provision = none }

load_grpc_plugin_parts_example :
    (is_some remote_source.source ≡ (data_source_of remote == "remote"))
    × (is_some remote_source.provision ≡ (provision_of remote == "remote"))
unfolding load_grpc_plugin start_grpc_plugin dispense_plugin get_plugin_path get_plugin_dir
load_grpc_plugin_parts_example =
    Grpc.load_grpc_plugin_parts working "remote" remote none remote_source refl
