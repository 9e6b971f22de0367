-- ===== src/Local/Zones/Outcome.antt =====
-- What the trust zone methods leave in memory: the configuration as it was, or the one change.
use cofidectl.Common.{
  ◌≡◌, ◌⊎◌, String, none, some, [], ◌∷◌, ◌++◌, arith, is_empty, true, get_text, find_first,
  remove_first, replace_first,
}
use cofidectl.Common.Errors.{Result, ok}
use cofidectl.Config.{zone_has_id, get_trust_zone_by_name, get_clusters_by_trust_zone}
use cofidectl.Config.Messages.{TrustZone}
use cofidectl.Config.Loader.{Loader}
use cofidectl.Proto.{ProtoLib, IsProtoLib, clone_trust_zone_lem}
use cofidectl.Local.{LocalDataSource}
use cofidectl.Local.Zones.{
  add_trust_zone, destroy_trust_zone, update_trust_zone, without_references,
  validate_trust_zone_update,
}

module _ {S : Type 0} (lib : ProtoLib) (laws : IsProtoLib lib) (loader : Loader S) where
  pub add_trust_zone_outcome :
      (uid : Result String) (tz : TrustZone) (lds : LocalDataSource S)
      → let c = lds.config in
        let c' = (add_trust_zone lib loader uid tz lds).1.config in
        (c' ≡ c)
        ⊎ ((id : String) × (uid ≡ ok id)
            × (get_trust_zone_by_name c tz.name ≡ none)
            × (c' ≡ record c { trust_zones = c.trust_zones ++ record tz { id = some id } ∷ [] }))
  unfolding add_trust_zone
  add_trust_zone_outcome uid tz lds = ground (arith, clone_trust_zone_lem lib laws tz)

  pub destroy_trust_zone_outcome :
      (id : String) (lds : LocalDataSource S)
      → let c = lds.config in
        let c' = (destroy_trust_zone lib loader id lds).1.config in
        (c' ≡ c)
        ⊎ (is_empty (get_clusters_by_trust_zone c id) ≡ true) × (c' ≡ without_references id c)
        ⊎ (is_empty (get_clusters_by_trust_zone c id) ≡ true)
          × (c' ≡ record (without_references id c) {
            trust_zones = remove_first (zone_has_id id) c.trust_zones;
          })
  unfolding destroy_trust_zone
  destroy_trust_zone_outcome id lds = ground (arith)

  pub update_trust_zone_outcome :
      (tz : TrustZone) (lds : LocalDataSource S)
      → let c = lds.config in
        let c' = (update_trust_zone lib loader tz lds).1.config in
        (c' ≡ c)
        ⊎ ((current : TrustZone) × (find_first (zone_has_id (get_text tz.id)) c.trust_zones
              ≡ some current)
            × (validate_trust_zone_update current tz ≡ ok tt)
            × (c' ≡ record c {
              trust_zones = replace_first (zone_has_id (get_text tz.id)) tz c.trust_zones;
            }))
  unfolding update_trust_zone
  update_trust_zone_outcome tz lds = ground (arith, clone_trust_zone_lem lib laws tz)
