-- ===== src/Config/Loader.antt =====
-- internal/pkg/config/loader.go and validator.go: how a `Config` is stored and read back. The YAML
-- encoding (protoyaml), the Cue validation and the operating system's files are parameters.
pub mod Persistence
use cofidectl.Common.{ℕ, Bool, true, false, Option, none, some, List, []}
use cofidectl.Common.Errors.{
  Error, Result, ok, err, panic, ◌>>=◌, wrap, schema_failed, invalid_config, read_failed,
  write_failed, marshal_failed, unmarshal_failed, memory_missing,
}
use cofidectl.Config.{Config, ConfigProto, to_proto, new_config_from_proto}

abbrev pub Bytes : Type 0
Bytes = List ℕ

-- The `Loader` interface over a store `S`. Only `Write` changes the store.
pub record Loader (S : Type 0) : Type 0 where
  pub exists : S → Result Bool
  pub read : S → Result Config
  pub write : Config → S → Result (Unit {0}) × S

-- protoyaml and Cue. `unmarshal` is given the message that it fills in.
pub record Codec : Type 0 where
  pub marshal : ConfigProto → Result Bytes
  pub unmarshal : Bytes → ConfigProto → Result ConfigProto
  pub compile_schema : Result (Unit {0})
  pub cue_validate : Bytes → Result (Unit {0})

-- The answer of `os.Stat`.
pub data Stat : Type 0 where
  found missing : Stat
  stat_error : Error → Stat

-- The operating system's view of the configuration file.
pub record FileSystem (S : Type 0) : Type 0 where
  pub stat : S → Stat
  pub read_file : S → Result Bytes
  pub write_file : Bytes → S → Result (Unit {0}) × S

pub record MemoryStore : Type 0 where
  pub exists : Bool
  pub bytes : Bytes

module _ (codec : Codec) where
  unfoldable pub marshal_yaml : Config → Result Bytes
  marshal_yaml c = codec.marshal (to_proto c)

  abbrev pub blank : ConfigProto
  blank = record {
    trust_zones = [];
    clusters = [];
    attestation_policies = [];
    ap_bindings = [];
    federations = [];
    plugin_config = some [];
    plugins = none;
  }

  unfoldable pub unmarshal_yaml : Bytes → Result Config
  unmarshal_yaml data' = do proto ← codec.unmarshal data' blank; ok (new_config_from_proto proto)

  unfoldable pub validate : Bytes → Result (Unit {0})
  validate data' = do
    _ ← wrap schema_failed codec.compile_schema
    wrap invalid_config (codec.cue_validate data')

  unfoldable pub validated_read : Bytes → Result Config
  validated_read data' = do _ ← validate data'; wrap unmarshal_failed (unmarshal_yaml data')

  abbrev after_marshal :
      {S : Type 0} → Result Bytes → (Bytes → S → Result (Unit {0}) × S) → S → Result (Unit {0}) × S
  after_marshal (ok data') k s = k data' s
  after_marshal (err e) k s = (err (marshal_failed e), s)
  after_marshal panic k s = (panic, s)

  abbrev memory_read : MemoryStore → Result Config
  memory_read s = elim s.exists [ true ↦ validated_read s.bytes | false ↦ err memory_missing ]

  abbrev memory_write : Config → MemoryStore → Result (Unit {0}) × MemoryStore
  memory_write c =
      after_marshal (marshal_yaml c) λ data' s. (ok tt, record { exists = true; bytes = data' })

  unfoldable pub memory_loader : Loader MemoryStore
  memory_loader = record { exists = λ s. ok s.exists; read = memory_read; write = memory_write }

  -- `NewMemoryLoader`: an empty store, or one that the given configuration was written to.
  unfoldable pub new_memory_loader : Option Config → Result MemoryStore
  new_memory_loader none = ok (record { exists = false; bytes = [] })
  new_memory_loader (some c) =
      let (r, s) = memory_write c (record { exists = true; bytes = [] }) in do _ ← r; ok s

  module _ {S : Type 0} (fs : FileSystem S) where
    abbrev file_exists : S → Result Bool
    file_exists s = elim (fs.stat s) [ found ↦ ok true | missing ↦ ok false | stat_error e ↦ err e ]

    abbrev file_read : S → Result Config
    file_read s = do data' ← wrap read_failed (fs.read_file s); validated_read data'

    abbrev write_bytes : Bytes → S → Result (Unit {0}) × S
    write_bytes data' s = let (r, s') = fs.write_file data' s in (wrap write_failed r, s')

    abbrev file_write : Config → S → Result (Unit {0}) × S
    file_write c = after_marshal (marshal_yaml c) write_bytes

    unfoldable pub file_loader : Loader S
    file_loader = record { exists = file_exists; read = file_read; write = file_write }
