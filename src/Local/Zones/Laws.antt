-- ===== src/Local/Zones/Laws.antt =====
-- pkg/plugin/local/local.go: what the trust zone methods promise to each other's callers.
use cofidectl.Common.{
  ◌≡◌, ◌≢◌, ◌↔◌, refl, sym, ap, ◌∙◌, String, ◌==◌, not, true, false, none, some, List, [], ◌∷◌,
  ◌++◌, arith, eq_iff, get_text, is_some, test_of_ne, test_of_eq, find_first, find_first-append,
  find_first-passes, find_first-replace_first, find_first-replace_first_other, ◌⊎◌, eq_of_test,
  remove_first, replace_first,
}
use cofidectl.Common.Errors.{ok, err, panic, not_found, zone_kind, clusters_exist}
use cofidectl.Common.Keys.{
  All, All-map, All-filter_test, find_first-none, find_first-remove_first, filter-All,
}
use cofidectl.Config.{
  Config, zone_has_id, zone_has_name, get_trust_zone_by_name, get_trust_zone_by_id,
  get_clusters_by_trust_zone,
}
use cofidectl.Config.Messages.{TrustZone, Federation}
use cofidectl.Config.WellFormed.{WellFormed, zone_id, HasZone, IsJoined}
use cofidectl.Config.Loader.{Loader}
use cofidectl.Proto.{ProtoLib, IsProtoLib, clone_trust_zone_lem}
use cofidectl.Local.{LocalDataSource}
use cofidectl.Local.Zones.Invariant.{kept_binding, kept_federation}
use cofidectl.Local.Zones.{
  add_trust_zone, destroy_trust_zone, update_trust_zone, get_trust_zone, get_trust_zone_named,
  validate_trust_zone_update, binding_of_zone, federation_touches, without_references,
}

-- An update of a trust zone is accepted exactly when it keeps the id, the name and the trust domain.
validate_trust_zone_update_iff :
    (current new : TrustZone)
    → (validate_trust_zone_update current new ≡ ok tt) ↔ (
        (get_text new.id ≡ get_text current.id)
        × (new.name ≡ current.name)
        × (new.trust_domain ≡ current.trust_domain))
unfolding validate_trust_zone_update
validate_trust_zone_update_iff current new = ground (
  arith,
  eq_iff (get_text new.id) (get_text current.id),
  eq_iff new.name current.name,
  eq_iff new.trust_domain current.trust_domain,
)

-- No reference leads to a trust zone that is not there.
absent_zone :
    (zones : List TrustZone) (id k : String)
    → find_first (zone_has_id id) zones ≡ none
    → HasZone zones k
    → (k == id) ≡ false
absent_zone zones id k missing has = test_of_ne k id λ e.
    let there : is_some (find_first (zone_has_id id) zones) ≡ true = rw e at has in
    cc (missing, there)

without_references_absent :
    (id : String) (c : Config)
    → WellFormed c
    → find_first (zone_has_id id) c.trust_zones ≡ none
    → without_references id c ≡ c
without_references_absent id c w missing =
    let bindings =
      filter-All (λ b. not (binding_of_zone id b)) c.ap_bindings
        (All-map _ (λ b h. ap not (absent_zone c.trust_zones id _ missing h.0)) _
          w.bindings.bound) in
    let apart : (f : Federation) → IsJoined c.trust_zones f → not (federation_touches id f) ≡ true =
      λ f h.
        rw (absent_zone c.trust_zones id _ missing h.0, absent_zone c.trust_zones id _ missing h.1)
          refl in
    let federations =
      filter-All (λ f. not (federation_touches id f)) c.federations
        (All-map _ apart _ w.federations.joined) in
    λ i. record c { ap_bindings = bindings i; federations = federations i }

module _ {S : Type 0} (lib : ProtoLib) (laws : IsProtoLib lib) (loader : Loader S) where
  -- The state and the result of a successful addition.
  added :
      (id : String) (tz new : TrustZone) (lds : LocalDataSource S)
      → (add_trust_zone lib loader (ok id) tz lds).0 ≡ ok new
      → (new ≡ record tz { id = some id })
        × (get_trust_zone_by_name lds.config tz.name ≡ none)
        × ((add_trust_zone lib loader (ok id) tz lds).1.config.trust_zones
            ≡ lds.config.trust_zones ++ record tz { id = some id } ∷ [])
  unfolding add_trust_zone
  added id tz new lds h = ground (
    arith,
    clone_trust_zone_lem lib laws tz,
    clone_trust_zone_lem lib laws (record tz { id = some id }),
  )

  destroyed :
      (id : String) (lds : LocalDataSource S)
      → (destroy_trust_zone lib loader id lds).0 ≡ ok tt
      → (destroy_trust_zone lib loader id lds).1.config
        ≡ record (without_references id lds.config) {
          trust_zones = remove_first (zone_has_id id) lds.config.trust_zones;
        }
  unfolding destroy_trust_zone
  destroyed id lds h = ground arith

  updated :
      (tz new : TrustZone) (lds : LocalDataSource S)
      → (update_trust_zone lib loader tz lds).0 ≡ ok new
      → (current : TrustZone) × (find_first (zone_has_id (get_text tz.id)) lds.config.trust_zones
          ≡ some current)
        × (new ≡ tz)
        × ((update_trust_zone lib loader tz lds).1.config.trust_zones
            ≡ replace_first (zone_has_id (get_text tz.id)) tz lds.config.trust_zones)
  unfolding update_trust_zone
  updated tz new lds h = ground (arith, clone_trust_zone_lem lib laws tz)

  -- A trust zone that was added under an unused id is what both lookups then return.
  pub get-add_trust_zone :
      (id : String) (tz new : TrustZone) (lds : LocalDataSource S)
      → All (λ z. zone_id z ≢ id) lds.config.trust_zones
      → (add_trust_zone lib loader (ok id) tz lds).0 ≡ ok new
      → let after = (add_trust_zone lib loader (ok id) tz lds).1 in
        (new ≡ record tz { id = some id })
        × ((get_trust_zone lib loader id after).0 ≡ ok new)
        × ((get_trust_zone_named lib loader tz.name after).0 ≡ ok new)
  unfolding get_trust_zone get_trust_zone_named get_trust_zone_by_id get_trust_zone_by_name
      find_first
  get-add_trust_zone id tz new lds fresh h =
      let (made, named, appended) = added id tz new lds h in
      let absent = find_first-none zone_id id lds.config.trust_zones fresh in
      let tz' : TrustZone = record tz { id = some id } in
      ground (
        arith,
        appended,
        absent,
        find_first-append (zone_has_id id) lds.config.trust_zones (tz' ∷ []),
        find_first-append (zone_has_name tz.name) lds.config.trust_zones (tz' ∷ []),
        eq_iff id id,
        eq_iff tz.name tz.name,
        clone_trust_zone_lem lib laws tz',
      )

  -- Destroying a trust zone that a cluster belongs to is refused and changes nothing.
  destroy_trust_zone_blocked :
      (id : String) (lds : LocalDataSource S)
      → get_clusters_by_trust_zone lds.config id ≢ []
      → destroy_trust_zone lib loader id lds ≡ (err (clusters_exist id), lds)
  unfolding destroy_trust_zone
  destroy_trust_zone_blocked id lds h = ground arith

  -- From a well-formed configuration, destroying a trust zone that does not exist and has no
  -- clusters fails and changes nothing.
  destroy_trust_zone_missing :
      (id : String) (lds : LocalDataSource S)
      → WellFormed lds.config
      → get_trust_zone_by_id lds.config id ≡ none
      → get_clusters_by_trust_zone lds.config id ≡ []
      → destroy_trust_zone lib loader id lds ≡ (err (not_found zone_kind id), lds)
  unfolding destroy_trust_zone get_trust_zone_by_id
  destroy_trust_zone_missing id lds w missing free =
      ground (arith, without_references_absent id lds.config w missing)

  -- From a well-formed configuration, a trust zone that was destroyed is gone: no lookup by its
  -- id finds one, and no binding and no federation names it.
  pub destroy_trust_zone_done :
      (id : String) (lds : LocalDataSource S)
      → WellFormed lds.config
      → (destroy_trust_zone lib loader id lds).0 ≡ ok tt
      → let after = (destroy_trust_zone lib loader id lds).1 in
        (get_trust_zone lib loader id after ≡ (err (not_found zone_kind id), after))
        × (All (λ b. get_text b.trust_zone_id ≢ id) after.config.ap_bindings)
        × (All
            (λ f. (get_text f.trust_zone_id ≢ id) × (get_text f.remote_trust_zone_id ≢ id))
            after.config.federations)
  unfolding get_trust_zone get_trust_zone_by_id
  destroy_trust_zone_done id lds w h =
      let e = destroyed id lds h in
      let gone = find_first-remove_first zone_id id lds.config.trust_zones w.zones.ids in
      rw e (
        ground (arith, gone),
        All-map _ (kept_binding id) _ (All-filter_test _ lds.config.ap_bindings),
        All-map _ (kept_federation id) _ (All-filter_test _ lds.config.federations),
      )

  -- After a successful update the id leads to the new trust zone, and every other id to what it led
  -- to before.
  pub update_trust_zone_done :
      (tz new : TrustZone) (lds : LocalDataSource S)
      → (update_trust_zone lib loader tz lds).0 ≡ ok new
      → let after = (update_trust_zone lib loader tz lds).1 in
        (new ≡ tz)
        × (get_trust_zone_by_id after.config (get_text tz.id) ≡ some tz)
        × ((j : String)
            → j ≢ get_text tz.id
            → get_trust_zone_by_id after.config j ≡ get_trust_zone_by_id lds.config j)
  unfolding get_trust_zone_by_id
  update_trust_zone_done tz new lds h =
      let (current, found, same, replaced) = updated tz new lds h in
      (
        same,
        rw replaced (find_first-replace_first _ tz current _ (test_of_eq _ _ refl) found),
        λ j n. rw replaced (
            find_first-replace_first_other (zone_has_id (get_text tz.id)) (zone_has_id j) tz _
              (λ x q. test_of_ne _ _ (λ e. n (sym (eq_of_test _ _ q) ∙ e)))
              (test_of_ne _ _ (λ e. n (sym e)))),
      )

  -- Whenever the first trust zone that the id of the new one leads to has no id itself, an update that
  -- changes the name or the trust domain panics: it dereferences the missing id for its message.
  pub update_trust_zone_panics :
      (tz current : TrustZone) (lds : LocalDataSource S)
      → get_trust_zone_by_id lds.config (get_text tz.id) ≡ some current
      → current.id ≡ none
      → (tz.name ≢ current.name) ⊎ (tz.trust_domain ≢ current.trust_domain)
      → update_trust_zone lib loader tz lds ≡ (panic, lds)
  unfolding update_trust_zone get_trust_zone_by_id validate_trust_zone_update
  update_trust_zone_panics tz current lds found no_id changed = ground (
    arith,
    find_first-passes _ lds.config.trust_zones current found,
    eq_iff (get_text current.id) (get_text tz.id),
    eq_iff (get_text tz.id) (get_text current.id),
    eq_iff tz.name current.name,
    eq_iff tz.trust_domain current.trust_domain,
  )
