-- ===== src/Local/Zones/Invariant.antt =====
-- pkg/plugin/local/local.go: the trust zone methods keep a configuration well-formed.
use cofidectl.Common.{
  ◌≡◌, ◌≢◌, sym, inl, inr, String, not, true, arith, eq_iff, get_text, remove_first,
}
use mathlib.Core.Path.{subst}
use cofidectl.Common.Errors.{Result, ok}
use cofidectl.Common.Keys.{
  All, All-filter, All-filter_test, All-both, Unique-filter, Unique-remove_first,
}
use cofidectl.Config.{Config, zone_has_id}
use cofidectl.Config.Messages.{TrustZone, ApBinding, Federation}
use cofidectl.Config.WellFormed.{
  WellFormed, HasZone-remove, zone_id, zone_name, binding_id, binding_pair, federation_id,
  federation_pair,
}
use cofidectl.Config.WellFormed.Changes.{add_zone, replace_zone}
use cofidectl.Config.Loader.{Loader}
use cofidectl.Proto.{ProtoLib, IsProtoLib}
use cofidectl.Local.{LocalDataSource}
use cofidectl.Local.Zones.{
  add_trust_zone, destroy_trust_zone, update_trust_zone, without_references,
  validate_trust_zone_update, binding_of_zone, federation_touches,
}
use cofidectl.Local.Zones.Outcome.{
  add_trust_zone_outcome, destroy_trust_zone_outcome, update_trust_zone_outcome,
}

without_references-WellFormed :
    {c : Config} (id : String) → WellFormed c → WellFormed (without_references id c)
without_references-WellFormed {c} id w = record {
  zones = w.zones;
  clusters = w.clusters;
  policies = w.policies;
  bindings = record {
    ids = Unique-filter binding_id _ c.ap_bindings w.bindings.ids;
    pairs = Unique-filter binding_pair _ c.ap_bindings w.bindings.pairs;
    bound = All-filter _ _ c.ap_bindings w.bindings.bound;
  };
  federations = record {
    ids = Unique-filter federation_id _ c.federations w.federations.ids;
    pairs = Unique-filter federation_pair _ c.federations w.federations.pairs;
    joined = All-filter _ _ c.federations w.federations.joined;
  };
}

pub kept_binding :
    (id : String) (b : ApBinding)
    → not (binding_of_zone id b) ≡ true
    → get_text b.trust_zone_id ≢ id
kept_binding id b h e = ground (arith, eq_iff (get_text b.trust_zone_id) id)

pub kept_federation :
    (id : String) (f : Federation)
    → not (federation_touches id f) ≡ true
    → (get_text f.trust_zone_id ≢ id) × (get_text f.remote_trust_zone_id ≢ id)
kept_federation id f h =
    ground
      (arith, eq_iff (get_text f.trust_zone_id) id, eq_iff (get_text f.remote_trust_zone_id) id)

remove_zone-WellFormed :
    {c : Config} (id : String)
    → WellFormed c
    → WellFormed (record (without_references id c) {
      trust_zones = remove_first (zone_has_id id) c.trust_zones;
    })
remove_zone-WellFormed {c} id w =
    let v = without_references-WellFormed id w in
    record {
      zones = record {
        ids = Unique-remove_first zone_id _ c.trust_zones w.zones.ids;
        names = Unique-remove_first zone_name _ c.trust_zones w.zones.names;
      };
      clusters = w.clusters;
      policies = w.policies;
      bindings = record {
        ids = v.bindings.ids;
        pairs = v.bindings.pairs;
        bound =
            All-both (λ b h t. (HasZone-remove c.trust_zones id _ (kept_binding id b t) h.0, h.1)) _
              v.bindings.bound (All-filter_test (λ b. not (binding_of_zone id b)) c.ap_bindings);
      };
      federations = record {
        ids = v.federations.ids;
        pairs = v.federations.pairs;
        joined =
            All-both
              (λ f h t. (
                HasZone-remove c.trust_zones id _ (kept_federation id f t).0 h.0,
                HasZone-remove c.trust_zones id _ (kept_federation id f t).1 h.1,
                h.2,
              ))
              _ v.federations.joined
              (All-filter_test (λ f. not (federation_touches id f)) c.federations);
      };
    }

validated_name :
    (current tz : TrustZone)
    → validate_trust_zone_update current tz ≡ ok tt
    → (tz.name ≡ current.name)
unfolding validate_trust_zone_update
validated_name current tz h = ground (arith, eq_iff tz.name current.name)

module _ {S : Type 0} (lib : ProtoLib) (laws : IsProtoLib lib) (loader : Loader S) where
  -- Adding a trust zone keeps the configuration in memory well-formed, whether the call succeeds or
  -- fails, if the new UUID is no trust zone's id yet.
  pub add_trust_zone-WellFormed :
      (uid : Result String) (tz : TrustZone) (lds : LocalDataSource S)
      → ((id : String) → uid ≡ ok id → All (λ z. zone_id z ≢ id) lds.config.trust_zones)
      → WellFormed lds.config
      → WellFormed (add_trust_zone lib loader uid tz lds).1.config
  add_trust_zone-WellFormed uid tz lds fresh w =
      elim (add_trust_zone_outcome lib laws loader uid tz lds) [
        | inl same ↦ subst WellFormed (sym same) w
        | inr (id, made, named, e) ↦ subst WellFormed (sym e) (add_zone w _ (fresh id made) named)
      ]

  -- Destroying a trust zone keeps the configuration in memory well-formed, whether it succeeds or fails: no binding or
  -- federation is left that names the trust zone.
  pub destroy_trust_zone-WellFormed :
      (id : String) (lds : LocalDataSource S)
      → WellFormed lds.config
      → WellFormed (destroy_trust_zone lib loader id lds).1.config
  destroy_trust_zone-WellFormed id lds w =
      elim (destroy_trust_zone_outcome lib laws loader id lds) [
        | inl same ↦ subst WellFormed (sym same) w
        | inr (inl (free, e)) ↦ subst WellFormed (sym e) (without_references-WellFormed id w)
        | inr (inr (free, e)) ↦ subst WellFormed (sym e) (remove_zone-WellFormed id w)
      ]

  -- Updating a trust zone keeps the configuration in memory well-formed, whether it succeeds or fails.
  pub update_trust_zone-WellFormed :
      (tz : TrustZone) (lds : LocalDataSource S)
      → WellFormed lds.config
      → WellFormed (update_trust_zone lib loader tz lds).1.config
  update_trust_zone-WellFormed tz lds w = elim (update_trust_zone_outcome lib laws loader tz lds) [
    | inl same ↦ subst WellFormed (sym same) w
    | inr (current, found, valid, e) ↦
        subst WellFormed (sym e) (replace_zone w tz current found (validated_name current tz valid))
  ]
