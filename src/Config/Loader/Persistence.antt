-- ===== src/Config/Loader/Persistence.antt =====
-- internal/pkg/config/loader.go: what a loader promises to the data source, and that the loaders of
-- the program keep the promise.
use cofidectl.Common.{◌≡◌, refl, ap, ◌≢◌, true, none, arith, inl, inr}
use cofidectl.Common.Errors.{Result, ok, err, panic, wrap, Result-cases, write_failed}
use cofidectl.Config.{Config, ConfigProto, IsComplete, to_proto, round_trip_complete}
use cofidectl.Config.Loader.{
  Bytes, Loader, Codec, FileSystem, MemoryStore, found, blank, marshal_yaml, unmarshal_yaml,
  validate, validated_read, memory_loader, file_loader,
}

-- The promise: what a successful write stored is there, and is read back as it was.
pub record Persists {S : Type 0} (Storable : Config → Type 0) (loader : Loader S) : Type 0 where
  pub stored :
      (c : Config) (s s' : S)
      → Storable c
      → loader.write c s ≡ (ok tt, s')
      → (loader.exists s' ≡ ok true) × (loader.read s' ≡ ok c)

-- The documented behaviour of protoyaml and Cue: the schema compiles, and a message with its maps
-- comes back from its encoding.
pub record IsCodec (codec : Codec) : Type 0 where
  pub compiles : codec.compile_schema ≡ ok tt
  pub round_trips :
      (p : ConfigProto) (data' : Bytes)
      → p.plugin_config ≢ none
      → codec.marshal p ≡ ok data'
      → codec.unmarshal data' (blank codec) ≡ ok p

-- The documented behaviour of the files: what was written is there and is read back.
pub record IsFileSystem {S : Type 0} (fs : FileSystem S) : Type 0 where
  pub written :
      (data' : Bytes) (s s' : S)
      → fs.write_file data' s ≡ (ok tt, s')
      → (fs.stat s' ≡ found) × (fs.read_file s' ≡ ok data')

-- A complete configuration whose encoding the schema accepts.
pub record IsStorable (codec : Codec) (c : Config) : Type 0 where
  pub complete : IsComplete c
  pub accepted :
      (data' : Bytes) → marshal_yaml codec c ≡ ok data' → codec.cue_validate data' ≡ ok tt

-- A wrapped result that is a success was one before.
wrap_ok :
    {S : Type 0} (r : Result (Unit {0}) × S) (s' : S)
    → ◌≡◌ {A = Result (Unit {0}) × S} (wrap write_failed r.0, r.1) (ok tt, s')
    → r ≡ (ok tt, s')
wrap_ok (ok u, s) s' h = h
wrap_ok (err e, s) s' h = ground arith
wrap_ok (panic, s) s' h = ground arith

module _ (codec : Codec) (laws : IsCodec codec) where
  validated_read-marshal_yaml :
      (c : Config) (data' : Bytes)
      → IsStorable codec c
      → marshal_yaml codec c ≡ ok data'
      → validated_read codec data' ≡ ok c
  unfolding validated_read validate unmarshal_yaml marshal_yaml to_proto
  validated_read-marshal_yaml c data' h m =
      let filled : codec.unmarshal data' (blank codec) ≡ ok (to_proto c) =
        laws.round_trips (to_proto c) data' h.complete.has_plugin_config m in
      rw (laws.compiles, h.accepted data' m, filled) (ap ok (round_trip_complete c h.complete))

  -- With an encoding that behaves as documented, a successful write through the in-memory loader
  -- is there and is read back as the configuration that was written, if that has its maps and
  -- passes the validation.
  pub memory_loader-Persists : Persists (IsStorable codec) (memory_loader codec)
  unfolding memory_loader
  memory_loader-Persists = record {
    stored = λ c s s' h w. elim (Result-cases (marshal_yaml codec c)) [
      | inl (data', m) ↦
          let e : (ok tt, record { exists = true; bytes = data' }) ≡ (ok tt, s') = rw m at w in
          let same : record { exists = true; bytes = data' } ≡ s' =
            ap (λ (p : Result (Unit {0}) × MemoryStore). p.1) e in
          rw (← same) (refl, validated_read-marshal_yaml c data' h m)
      | inr other ↦ ground arith
    ];
  }

  -- With an encoding and files that behave as documented, a successful write through the file
  -- loader is there and is read back as the configuration that was written, if that has its maps
  -- and passes the validation.
  pub file_loader-Persists :
      {S : Type 0} (fs : FileSystem S)
      → IsFileSystem fs
      → Persists (IsStorable codec) (file_loader codec fs)
  unfolding file_loader
  file_loader-Persists fs files = record {
    stored = λ c s s' h w. elim (Result-cases (marshal_yaml codec c)) [
      | inl (data', m) ↦
          let (there, back) = files.written data' s s' (wrap_ok _ s' (rw m at w)) in
          ground (arith, there, back, validated_read-marshal_yaml c data' h m)
      | inr other ↦ ground arith
    ];
  }
