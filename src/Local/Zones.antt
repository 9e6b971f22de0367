-- ===== src/Local/Zones.antt =====
-- pkg/plugin/local/local.go: the trust zone methods of the local data source.
mod Outcome
pub mod Invariant
pub mod Laws
use cofidectl.Common.{
  String, ◌==◌, Bool, not, Option, none, some, List, [], ◌∷◌, ◌++◌, if◌then◌else◌, get_text,
  find_first, filter, remove_first, replace_first, ◌||◌, is_empty, is_some,
}
use cofidectl.Common.Errors.{
  zone_kind, Error, Result, ok, err, panic, id_set, already_exists, not_found, immutable,
  clusters_exist, add_failed, remove_failed, update_failed,
}
use cofidectl.Common.Action.{Action, lift, gets, fail_if, ◌>>=◌, ◌>>◌}
use cofidectl.Config.{
  Config, zone_has_id, get_trust_zone_by_name, get_trust_zone_by_id, get_clusters_by_trust_zone,
}
use cofidectl.Config.Messages.{TrustZone, ApBinding, Federation}
use cofidectl.Config.Loader.{Loader}
use cofidectl.Proto.{ProtoLib, clone_trust_zone}
use cofidectl.Local.{LocalDataSource, generate_id, or_fail, clone_all, change, update_data_file}

-- `fmt.Errorf("cannot update …", *current.Id)`: a trust zone with no id makes it panic.
abbrev cannot_update : TrustZone → String → Result (Unit {0})
cannot_update current what = elim current.id [
  | none ↦ panic
  | some id ↦ err (immutable zone_kind what id)
]

unfoldable pub validate_trust_zone_update : TrustZone → TrustZone → Result (Unit {0})
validate_trust_zone_update current new =
    if not (get_text new.id == get_text current.id)
    then cannot_update current "id"
    else if not (new.name == current.name)
    then cannot_update current "name"
    else if not (new.trust_domain == current.trust_domain)
    then cannot_update current "trust domain"
    else ok tt

-- What `DestroyTrustZone` removes beside the trust zone.
abbrev pub binding_of_zone : String → ApBinding → Bool
binding_of_zone id binding = get_text binding.trust_zone_id == id

abbrev pub federation_touches : String → Federation → Bool
federation_touches id federation =
    get_text federation.trust_zone_id == id || get_text federation.remote_trust_zone_id == id

abbrev pub without_references : String → Config → Config
without_references id c = record c {
  ap_bindings = filter (λ binding. not (binding_of_zone id binding)) c.ap_bindings;
  federations = filter (λ federation. not (federation_touches id federation)) c.federations;
}

module _ {S : Type 0} (lib : ProtoLib) (loader : Loader S) where
  unfoldable pub add_trust_zone : Result String → TrustZone → Action (LocalDataSource S) TrustZone
  unfolding generate_id update_data_file
  add_trust_zone uid tz = do
    fail_if (not (get_text tz.id == "")) (id_set zone_kind (get_text tz.id))
    copy ← lift (clone_trust_zone lib tz)
    id ← lift (generate_id zone_kind uid)
    let new = record copy { id = some id }
    same ← gets (λ lds. get_trust_zone_by_name lds.config new.name)
    fail_if (is_some same) (already_exists zone_kind new.name)
    change (λ c. record c { trust_zones = c.trust_zones ++ new ∷ [] })
    update_data_file loader (add_failed zone_kind)
    lift (clone_trust_zone lib new)

  unfoldable pub destroy_trust_zone : String → Action (LocalDataSource S) (Unit {0})
  unfolding update_data_file
  destroy_trust_zone id = do
    clusters ← gets (λ lds. get_clusters_by_trust_zone lds.config id)
    fail_if (not (is_empty clusters)) (clusters_exist id)
    change (without_references id)
    found ← gets (λ lds. find_first (zone_has_id id) lds.config.trust_zones)
    or_fail (not_found zone_kind id) found
    change (λ c. record c { trust_zones = remove_first (zone_has_id id) c.trust_zones })
    update_data_file loader (remove_failed zone_kind)

  unfoldable pub get_trust_zone : String → Action (LocalDataSource S) TrustZone
  get_trust_zone id = do
    found ← gets (λ lds. get_trust_zone_by_id lds.config id)
    tz ← or_fail (not_found zone_kind id) found
    lift (clone_trust_zone lib tz)

  unfoldable pub get_trust_zone_named : String → Action (LocalDataSource S) TrustZone
  get_trust_zone_named name = do
    found ← gets (λ lds. get_trust_zone_by_name lds.config name)
    tz ← or_fail (not_found zone_kind name) found
    lift (clone_trust_zone lib tz)

  unfoldable pub list_trust_zones : Action (LocalDataSource S) (List TrustZone)
  list_trust_zones lds = (clone_all (clone_trust_zone lib) lds.config.trust_zones, lds)

  -- The loop acts at the first trust zone with the id.
  unfoldable pub update_trust_zone : TrustZone → Action (LocalDataSource S) TrustZone
  unfolding update_data_file
  update_trust_zone tz = do
    found ← gets (λ lds. find_first (zone_has_id (get_text tz.id)) lds.config.trust_zones)
    current ← or_fail (not_found zone_kind (get_text tz.id)) found
    lift (validate_trust_zone_update current tz)
    copy ← lift (clone_trust_zone lib tz)
    change (λ c. record c {
      trust_zones = replace_first (zone_has_id (get_text tz.id)) copy c.trust_zones;
    })
    update_data_file loader (update_failed zone_kind)
    lift (clone_trust_zone lib copy)
