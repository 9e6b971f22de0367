-- ===== src/Helm/Generator/Laws.antt =====
-- pkg/provider/helm/values.go: what `GenerateValues` promises.
use cofidectl.Common.{◌≡◌, refl, ap, String, false, Option, none, some, [], ◌∷◌}
use cofidectl.Common.Errors.{Error, Result, ok, err, panic, wrap}
use cofidectl.Common.Errors
use cofidectl.Common.Action.{Action, pure, lift, continue, ◌>>=◌}
use cofidectl.Values.{Fields, object}
use cofidectl.Config.Messages.{Bundle}
use cofidectl.DataSource.{DataSource}
use cofidectl.Helm.Maps.{
  get, put, get_or_create_nested_map, merge_fields, merge_maps, shallow_merge,
}
use cofidectl.Helm.Maps.Laws.{IsMap, MergedAt, get-merge_fields}
use cofidectl.Helm.Entries.{SpiffeId}
use cofidectl.Helm.Sections.{nested, put_back, oidc_discovery_provider_values, csi_driver_values}
use cofidectl.Helm.Generator.{
  HelmValuesGenerator, controller_manager_enabled, fixed_sections, server_entries, combined_values,
  generate_values, nested_action, not_nil, merge_some,
}

-- The generator for the cluster without its extra Helm values.
abbrev pub without_extra : HelmValuesGenerator → HelmValuesGenerator
without_extra g = record g { cluster = record g.cluster { extra_helm_values = none } }

abbrev pub with_extra : HelmValuesGenerator → Fields → HelmValuesGenerator
with_extra g extra = record g { cluster = record g.cluster { extra_helm_values = some extra } }

merged_last :
    {D : Type 0} (extra m : Fields) (d' : D) (o : Result Fields × D)
    → IsMap extra
    → continue o.0 (λ combined. lift (merge_some (some extra) combined)) o.1 ≡ (ok m, d')
    → (base : Fields) × (o ≡ (ok base, d'))
      × ((k : String) → MergedAt (get k base) (get k extra) (get k m))
unfolding merge_maps
merged_last extra m d' (ok base, d) u h =
    let done : merge_fields base extra ≡ ok m = ap (λ o. o.0) h in
    (base, ap (λ o. (ok base, o.1)) h, λ k. get-merge_fields k base extra m u done)
merged_last extra m d' (err e, d) u h = cc
merged_last extra m d' (panic, d) u h = cc

module _ {D : Type 0} (ds : DataSource D) (lib : SpiffeId)
    (marshal_bundle : Option Bundle → Result String) where
  -- The extra values are not read before the last merge.
  combined-extra :
      (g : HelmValuesGenerator) (extra : Fields) (d : D)
      → combined_values ds lib marshal_bundle (with_extra g extra) d
        ≡ combined_values ds lib marshal_bundle (without_extra g) d
  unfolding combined_values fixed_sections server_entries
  combined-extra g extra d = refl

  -- The values for a cluster with extra Helm values, in which no key stands twice, are those for the
  -- cluster without them, with the extra values merged in last: each key has the value that it has
  -- without them, or its extra value merged into that one.
  pub generate_values_extra :
      (g : HelmValuesGenerator) (extra : Fields) (d : D) {d' : D} {m : Fields}
      → IsMap extra
      → generate_values ds lib marshal_bundle (with_extra g extra) d ≡ (ok m, d')
      → (base : Fields) × (generate_values ds lib marshal_bundle (without_extra g) d
          ≡ (ok base, d'))
        × ((k : String) → MergedAt (get k base) (get k extra) (get k m))
  unfolding generate_values
  generate_values_extra g extra d {d'} {m} u h =
      let (base, e, k) =
        merged_last extra m d' (combined_values ds lib marshal_bundle (with_extra g extra) d) u h in
      (base, rw (← combined-extra g extra d, e) refl, k)

-- The values that need no data source.
abbrev pub combined_without_source : HelmValuesGenerator → Result Fields
combined_without_source g = Errors.◌>>=◌ (fixed_sections g) λ fixed.
    Errors.◌>>=◌ (nested "spire-server" (nested "controllerManager" ok) fixed.server) λ server.
      Errors.◌>>=◌ (oidc_discovery_provider_values false) λ oidc.
        Errors.◌>>=◌ (csi_driver_values "spiffe-csi-driver") λ csi.
          merge_some g.values
            (shallow_merge (fixed.global ∷ fixed.agent ∷ server ∷ oidc ∷ csi ∷ []))

abbrev pub values_without_source : HelmValuesGenerator → Result Fields
values_without_source g =
    Errors.◌>>=◌ (combined_without_source g)
      λ combined. merge_some g.cluster.extra_helm_values combined

-- An action that only returns a result, continued by others of the kind.
continue-lift :
    {D A B : Type 0} (o : Result A × D) (r : Result A) (f : A → Action D B) (f' : A → Result B)
    (d : D)
    → o ≡ (r, d)
    → ((a : A) → f a d ≡ (f' a, d))
    → continue o.0 f o.1 ≡ (Errors.◌>>=◌ r f', d)
continue-lift o (ok a) f f' d e h = rw e (h a)
continue-lift o (err x) f f' d e h = rw e refl
continue-lift o panic f f' d e h = rw e refl

module _ {D : Type 0} (ds : DataSource D) (lib : SpiffeId)
    (marshal_bundle : Option Bundle → Result String) where
  nested_action-lift :
      (key : String) (f : Fields → Action D Fields) (f' : Fields → Result Fields) (m : Fields)
      (d : D)
      → ((sub : Fields) → f sub d ≡ (f' sub, d))
      → nested_action ds lib marshal_bundle key f m d ≡ (nested key f' m, d)
  nested_action-lift key f f' m d h =
      go (wrap (Errors.sub_map_failed key) (get_or_create_nested_map (some m) key))
    where
      go :
          (r : Result (Fields × Option Fields))
          → continue r
              (λ got. lift (not_nil got.1) >>= λ sub.
                f sub >>= λ sub'. pure (put key (object sub') got.0))
              d
            ≡ (Errors.◌>>=◌ r (put_back key f'), d)
      go (ok (m', some sub)) = continue-lift (f sub d) (f' sub) _ _ d (h sub) (λ sub'. refl)
      go (ok (m', none)) = refl
      go (err e) = refl
      go panic = refl

  server_entries-disabled :
      (g : HelmValuesGenerator) (server : Fields) (d : D)
      → controller_manager_enabled g.values ≡ false
      → server_entries ds lib marshal_bundle g server d ≡ (nested "controllerManager" ok server, d)
  unfolding server_entries
  server_entries-disabled g server d h =
      rw h (nested_action-lift "controllerManager" pure ok server d (λ sub. refl))

  combined_values-disabled :
      (g : HelmValuesGenerator) (d : D)
      → controller_manager_enabled g.values ≡ false
      → combined_values ds lib marshal_bundle g d ≡ (combined_without_source g, d)
  unfolding combined_values oidc_discovery_provider_values csi_driver_values
  combined_values-disabled g d h = continue-lift _ _ _ _ d refl λ fixed.
      continue-lift _ _ _ _ d
        (nested_action-lift "spire-server" (server_entries ds lib marshal_bundle g)
          (nested "controllerManager" ok) fixed.server d (λ sub. server_entries-disabled g sub d h))
        λ server. refl

  -- With custom values that set `spire-server.controllerManager.enabled` to false, the data source is
  -- neither asked nor changed: the values are those of the reference that has no data source.
  pub generate_values_disabled :
      (g : HelmValuesGenerator) (d : D)
      → controller_manager_enabled g.values ≡ false
      → generate_values ds lib marshal_bundle g d ≡ (values_without_source g, d)
  unfolding generate_values
  generate_values_disabled g d h =
      continue-lift _ _ _ _ d (combined_values-disabled g d h) λ combined. refl
