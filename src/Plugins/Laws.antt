-- ===== src/Plugins/Laws.antt =====
-- pkg/plugin/manager/manager.go: what the plugin manager keeps between calls.
use cofidectl.Common.{
  ◌≡◌, refl, String, ◌==◌, true, Option, none, some, List, [], ◌∷◌, is_some, arith,
}
use cofidectl.Common.Errors.{Result, ok, err, panic, source_kind, already_loaded, empty_plugin_name}
use cofidectl.Common.Action.{Action, continue, fail_if, gets, pure, ◌>>◌, ◌>>=◌}
use cofidectl.Config.{Config}
use cofidectl.Config.Messages.{Plugins}
use cofidectl.Config.Loader.{Loader}
use cofidectl.Local.{new_local_data_source, load_state}
use cofidectl.Plugins.{
  Running, Outside, LoaderEntry, Source, local, GrpcPluginLoader, data_source_of, read_config,
  new_manager, update_config_loader, local_ds_plugin_name,
}
use cofidectl.Plugins.Load.{
  search_sources, load_grpc_plugin, load_data_source, get_data_source, default_load_data_source,
  source_or, or_grpc_source, validate_source, load_source_from, change_manager,
}

-- An action that returns a data source leaves it in the manager.
abbrev KeepsSource :
    {W Client D P : Type 0} → Action (Running W Client D P) (Option (Source W D)) → Type 0
KeepsSource {W} {Client} {D} {P} m =
    (s : Running W Client D P) (ds : Source W D)
    → (m s).0 ≡ ok (some ds)
    → (m s).1.manager.source ≡ some ds

module _ {W Client D P A : Type 0} where
  continue-KeepsSource :
      (r : Result A) (f : A → Action (Running W Client D P) (Option (Source W D)))
      → ((a : A) → r ≡ ok a → KeepsSource (f a))
      → KeepsSource (continue r f)
  continue-KeepsSource (ok a) f h s ds e = h a refl s ds e
  continue-KeepsSource (err e') f h s ds e = cc
  continue-KeepsSource panic f h s ds e = cc

  bind-KeepsSource :
      (m : Action (Running W Client D P) A)
      (f : A → Action (Running W Client D P) (Option (Source W D)))
      → ((a : A) → KeepsSource (f a))
      → KeepsSource (m >>= f)
  bind-KeepsSource m f h s = continue-KeepsSource (m s).0 f (λ a e. h a) (m s).1

module _ {W Client D P : Type 0} (o : Outside W Client D P) where
  source_or-KeepsSource :
      (rest : Action (Running W Client D P) (Option (Source W D)))
      → KeepsSource rest
      → (found : Option (Source W D)) → KeepsSource (source_or o rest found)
  source_or-KeepsSource rest h none = h
  source_or-KeepsSource rest h (some ds) =
      bind-KeepsSource (validate_source o ds)
        (λ u. change_manager o (λ pm. record pm { source = some ds }) >> pure (some ds))
        λ u s ds' e. cc

  search_sources-KeepsSource :
      (name : String) (ls : List (LoaderEntry W D P)) → KeepsSource (search_sources o name ls)
  unfolding search_sources
  search_sources-KeepsSource name [] = λ s ds e. cc
  search_sources-KeepsSource name (l ∷ ls) =
      bind-KeepsSource (load_source_from o l name) (source_or o (search_sources o name ls))
        (source_or-KeepsSource (search_sources o name ls) (search_sources-KeepsSource name ls))

  gets-KeepsSource :
      KeepsSource {W = W} {Client = Client} {D = D} {P = P} (gets λ s. s.manager.source)
  gets-KeepsSource s ds e = ground arith

  or_grpc_source_after :
      (name : String) (plugins : Option Plugins) (r : Result (Option (Source W D)))
      (s : Running W Client D P)
      → ((ds : Source W D) → r ≡ ok (some ds) → s.manager.source ≡ some ds)
      → (ds : Source W D) → (continue r (or_grpc_source o name plugins) s).0 ≡ ok (some ds)
      → (continue r (or_grpc_source o name plugins) s).1.manager.source ≡ some ds
  unfolding load_grpc_plugin
  or_grpc_source_after name plugins (ok none) s h ds e =
      bind-KeepsSource (load_grpc_plugin o name plugins) (λ u. gets λ s. s.manager.source)
        (λ u. gets-KeepsSource) s ds e
  or_grpc_source_after name plugins (ok (some d)) s h ds e = h ds e
  or_grpc_source_after name plugins (err e') s h ds e = cc
  or_grpc_source_after name plugins panic s h ds e = cc

  or_grpc_source-KeepsSource :
      (name : String) (plugins : Option Plugins)
      (m : Action (Running W Client D P) (Option (Source W D)))
      → KeepsSource m
      → KeepsSource (m >>= or_grpc_source o name plugins)
  or_grpc_source-KeepsSource name plugins m h s =
      or_grpc_source_after name plugins (m s).0 (m s).1 (h s)

  searched : Option Plugins → String → Action (Running W Client D P) (Option (Source W D))
  searched plugins name = do
    loaders ← gets (λ s. s.manager.loaders)
    found ← search_sources o name loaders
    or_grpc_source o name plugins found

  named_source : Config → Action (Running W Client D P) (Option (Source W D))
  unfolding searched
  named_source c = do
    let name = data_source_of c.plugins
    fail_if (name == "") (empty_plugin_name source_kind)
    searched c.plugins name

  searched-KeepsSource :
      (plugins : Option Plugins) (name : String) → KeepsSource (searched plugins name)
  unfolding searched
  searched-KeepsSource plugins name s =
      or_grpc_source-KeepsSource name plugins (search_sources o name s.manager.loaders)
        (search_sources-KeepsSource name s.manager.loaders) s

  named_source-KeepsSource : (c : Config) → KeepsSource (named_source c)
  unfolding named_source
  named_source-KeepsSource c =
      let name = data_source_of c.plugins in
      bind-KeepsSource (fail_if (name == "") (empty_plugin_name source_kind))
        (λ u. searched c.plugins name) λ u. searched-KeepsSource c.plugins name

  load_data_source_keeps : KeepsSource (load_data_source o)
  unfolding load_data_source named_source searched
  load_data_source_keeps s =
      bind-KeepsSource (fail_if (is_some s.manager.source) (already_loaded source_kind))
        (λ u. read_config >>= named_source)
        (λ u. bind-KeepsSource read_config named_source named_source-KeepsSource) s

  get_data_source_keeps :
      (s : Running W Client D P) (ds : Source W D)
      → (get_data_source o s).0 ≡ ok (some ds)
      → (get_data_source o s).1.manager.source ≡ some ds
  unfolding get_data_source
  get_data_source_keeps s ds h = ground (arith, load_data_source_keeps s ds)

  get_data_source_loaded :
      (s : Running W Client D P) (ds : Source W D)
      → s.manager.source ≡ some ds
      → get_data_source o s ≡ (ok (some ds), s)
  unfolding get_data_source
  get_data_source_loaded s ds h = rw h

  -- Once a data source is found, it is the answer of the next call too, which changes nothing.
  get_data_source_cached :
      (s : Running W Client D P) (ds : Source W D)
      → (get_data_source o s).0 ≡ ok (some ds)
      → get_data_source o (get_data_source o s).1 ≡ (ok (some ds), (get_data_source o s).1)
  get_data_source_cached s ds h =
      get_data_source_loaded (get_data_source o s).1 ds (get_data_source_keeps s ds h)

  -- After `UpdateConfigLoader` a manager without a custom loader opens the local data source
  -- anew, with the new loader and on the configuration that this reads, whatever was cached, if
  -- that configuration names the local plugin.
  pub update_config_loader-get_data_source :
      (grpc : GrpcPluginLoader W Client D P) (old loader : Loader W) (cached : Option (Source W D))
      (w : W) (c : Config)
      → loader.exists w ≡ ok true
      → loader.read w ≡ ok c
      → data_source_of c.plugins ≡ local_ds_plugin_name
      → (get_data_source o (record {
        manager =
            update_config_loader loader (record (new_manager grpc old none) { source = cached });
        world = w;
      })).0
        ≡ ok (some (local loader c))
  unfolding get_data_source load_data_source search_sources update_config_loader new_manager
      read_config default_load_data_source new_local_data_source load_state
  update_config_loader-get_data_source grpc old loader cached w c he hr hn =
      rw (he, hr, hn) (rw (he, hr) refl)
