-- ===== src/Local/Federations.antt =====
-- pkg/plugin/local/local.go: the federation methods of the local data source.
pub mod Invariant
pub mod Laws
use cofidectl.Common.{
  String, ◌==◌, Bool, true, false, not, ◌&&◌, ◌||◌, Option, none, some, List, [], ◌∷◌, ◌++◌,
  if◌then◌else◌, get_text, find_first, filter, any, remove_first, replace_first, is_some, is_empty,
}
use cofidectl.Common.Errors.{
  federation_kind, zone_kind, Error, Result, ok, err, id_set, not_found, federation_self,
  federation_exists, list_failed, add_failed, remove_failed, wrap,
}
use cofidectl.Common.Action.{Action, lift, gets, fail_if, ◌>>=◌, ◌>>◌}
use cofidectl.Config.{Config, get_trust_zone_by_id}
use cofidectl.Config.Messages.{FederationFilter, Federation}
use cofidectl.Config.Loader.{Loader}
use cofidectl.Proto.{ProtoLib, clone_federation}
use cofidectl.Local.{LocalDataSource, generate_id, or_fail, clone_all, change, update_data_file}

abbrev pub federation_has_id : String → Federation → Bool
federation_has_id id federation = get_text federation.id == id

abbrev pub federation_joins : String → String → Federation → Bool
federation_joins local remote federation =
    get_text federation.trust_zone_id == local && get_text federation.remote_trust_zone_id == remote

-- Unlike in the filter of the bindings, an id that is set but empty selects.
abbrev pub federation_passes : Option FederationFilter → Federation → Bool
federation_passes none federation = true
federation_passes (some f) federation = elim f.trust_zone_id [
  | none ↦ true
  | some id ↦ get_text federation.trust_zone_id == id
]

module _ {S : Type 0} (lib : ProtoLib) (loader : Loader S) where
  unfoldable pub list_federations :
      Option FederationFilter → Action (LocalDataSource S) (List Federation)
  list_federations f lds =
      (clone_all (clone_federation lib) (filter (federation_passes f) lds.config.federations), lds)

  unfoldable pub add_federation : Result String → Federation → Action (LocalDataSource S) Federation
  unfolding generate_id update_data_file list_federations
  add_federation uid federation = do
    fail_if (not (get_text federation.id == "")) (id_set federation_kind (get_text federation.id))
    copy ← lift (clone_federation lib federation)
    id ← lift (generate_id federation_kind uid)
    let new = record copy { id = some id }
    let local = get_text new.trust_zone_id
    let remote = get_text new.remote_trust_zone_id
    zone ← gets (λ lds. get_trust_zone_by_id lds.config local)
    fail_if (not (is_some zone)) (not_found zone_kind local)
    remote_zone ← gets (λ lds. get_trust_zone_by_id lds.config remote)
    fail_if (not (is_some remote_zone)) (not_found zone_kind remote)
    fail_if (local == remote) (federation_self local)
    listed ← λ lds.
        let (r, lds') = list_federations (some (record { trust_zone_id = some local })) lds in
        (wrap (list_failed federation_kind) r, lds')
    fail_if (any (federation_joins local remote) listed) (federation_exists local remote)
    change (λ c. record c { federations = c.federations ++ new ∷ [] })
    update_data_file loader (add_failed federation_kind)
    lift (clone_federation lib new)

  unfoldable pub destroy_federation : String → Action (LocalDataSource S) (Unit {0})
  unfolding update_data_file
  destroy_federation id = do
    found ← gets (λ lds. find_first (federation_has_id id) lds.config.federations)
    or_fail (not_found federation_kind id) found
    change (λ c. record c { federations = remove_first (federation_has_id id) c.federations })
    update_data_file loader (remove_failed federation_kind)
