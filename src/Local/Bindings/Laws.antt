-- ===== src/Local/Bindings/Laws.antt =====
-- pkg/plugin/local/local.go: what the binding methods promise.
use cofidectl.Common.{
  ◌≡◌, ◌≢◌, ◌↔◌, refl, String, true, false, Option, some, List, [], ◌∷◌, ◌++◌, arith, eq_iff,
  get_text, is_some, filter, any, any_last,
}
use cofidectl.Common.Errors.{ok, err, already_bound}
use cofidectl.Common.Keys.{All}
use cofidectl.Config.{Config, get_trust_zone_by_id, get_attestation_policy_by_id}
use cofidectl.Config.Messages.{BindingFilter, ApBinding, ApBindingFederation}
use cofidectl.Config.Loader.{Loader}
use cofidectl.Proto.{ProtoLib, IsProtoLib, clone_ap_binding_lem}
use cofidectl.Local.{LocalDataSource, clone_all_lem}
use cofidectl.Local.Bindings.{
  binding_passes, unknown_zone, add_ap_binding, list_ap_bindings, same_binding, check_federations,
  federates_with, validate_ap_binding_update,
}

-- A remote trust zone that a binding in `local` may federate with.
abbrev pub MayFederate : Config → String → ApBindingFederation → Type 0
MayFederate c local remote =
    (get_text remote.trust_zone_id ≢ local)
    × (federates_with c local (get_text remote.trust_zone_id) ≡ true)

-- The federations of a binding are accepted exactly when each is with another trust zone that the
-- binding's own trust zone federates with.
pub check_federations_iff :
    (c : Config) (id local : String) (remotes : List ApBindingFederation)
    → (check_federations c id local remotes ≡ ok tt) ↔ All (MayFederate c local) remotes
unfolding check_federations
check_federations_iff c id local [] = ((λ h. tt), λ h. refl)
check_federations_iff c id local (r ∷ rs) =
    ground (arith, eq_iff (get_text r.trust_zone_id) local, check_federations_iff c id local rs)

-- An update of a binding is accepted exactly when it keeps the id, the trust zone and the policy.
validate_ap_binding_update_iff :
    (current new : ApBinding)
    → (validate_ap_binding_update current new ≡ ok tt) ↔ (
        (get_text new.id ≡ get_text current.id)
        × (get_text new.trust_zone_id ≡ get_text current.trust_zone_id)
        × (get_text new.policy_id ≡ get_text current.policy_id))
unfolding validate_ap_binding_update
validate_ap_binding_update_iff current new = ground (
  arith,
  eq_iff (get_text new.id) (get_text current.id),
  eq_iff (get_text new.trust_zone_id) (get_text current.trust_zone_id),
  eq_iff (get_text new.policy_id) (get_text current.policy_id),
)

-- What `AddAPBinding` demands of the configuration and of the binding.
pub record CanBind (c : Config) (b : ApBinding) : Type 0 where
  pub no_id : get_text b.id ≡ ""
  pub zone : is_some (get_trust_zone_by_id c (get_text b.trust_zone_id)) ≡ true
  pub policy : is_some (get_attestation_policy_by_id c (get_text b.policy_id)) ≡ true
  pub unbound : any (same_binding b) c.ap_bindings ≡ false
  pub federations : All (MayFederate c (get_text b.trust_zone_id)) b.federations

module _ {S : Type 0} (lib : ProtoLib) (laws : IsProtoLib lib) (loader : Loader S) where
  add_ap_binding_checked :
      (id : String) (b : ApBinding) (lds : LocalDataSource S)
      → (add_ap_binding lib loader (ok id) b lds).0 ≡ ok (record b { id = some id })
      → (get_text b.id ≡ "")
        × (is_some (get_trust_zone_by_id lds.config (get_text b.trust_zone_id)) ≡ true)
        × (is_some (get_attestation_policy_by_id lds.config (get_text b.policy_id)) ≡ true)
        × (any (same_binding b) lds.config.ap_bindings ≡ false)
        × (check_federations lds.config id (get_text b.trust_zone_id) b.federations ≡ ok tt)
  unfolding add_ap_binding
  add_ap_binding_checked id b lds h =
      ground (arith, clone_ap_binding_lem lib laws b, eq_iff (get_text b.id) "")

  add_ap_binding_accepts :
      (id : String) (b : ApBinding) (lds : LocalDataSource S) (s : S)
      → get_text b.id ≡ ""
      → is_some (get_trust_zone_by_id lds.config (get_text b.trust_zone_id)) ≡ true
      → is_some (get_attestation_policy_by_id lds.config (get_text b.policy_id)) ≡ true
      → any (same_binding b) lds.config.ap_bindings ≡ false
      → check_federations lds.config id (get_text b.trust_zone_id) b.federations ≡ ok tt
      → loader.write
          (record lds.config {
            ap_bindings = lds.config.ap_bindings ++ record b { id = some id } ∷ [];
          })
          lds.store
        ≡ (ok tt, s)
      → (add_ap_binding lib loader (ok id) b lds).0 ≡ ok (record b { id = some id })
  unfolding add_ap_binding
  add_ap_binding_accepts id b lds s no_id zone policy unbound fine wrote = ground (
    arith,
    clone_ap_binding_lem lib laws b,
    clone_ap_binding_lem lib laws (record b { id = some id }),
    eq_iff (get_text b.id) "",
  )

  -- Where the configuration can be written, a binding is added exactly when it comes without an id,
  -- its trust zone and its policy exist, they are not bound yet, and it federates only with other
  -- trust zones that its own federates with.
  pub add_ap_binding_iff :
      (id : String) (b : ApBinding) (lds : LocalDataSource S) (s : S)
      → loader.write
          (record lds.config {
            ap_bindings = lds.config.ap_bindings ++ record b { id = some id } ∷ [];
          })
          lds.store
        ≡ (ok tt, s)
      → ((add_ap_binding lib loader (ok id) b lds).0 ≡ ok (record b { id = some id }))
        ↔ CanBind lds.config b
  add_ap_binding_iff id b lds s wrote =
      let fine = check_federations_iff lds.config id (get_text b.trust_zone_id) b.federations in
      (
        (λ h.
            let (no_id, zone, policy, unbound, checked) = add_ap_binding_checked id b lds h in
            record {
              no_id = no_id;
              zone = zone;
              policy = policy;
              unbound = unbound;
              federations = fine.0 checked;
            }),
        λ h.
            add_ap_binding_accepts id b lds s h.no_id h.zone h.policy h.unbound
              (fine.1 h.federations) wrote,
      )

  bound_in :
      (id : String) (b new : ApBinding) (lds : LocalDataSource S)
      → (add_ap_binding lib loader (ok id) b lds).0 ≡ ok new
      → (new ≡ record b { id = some id })
        × (get_text b.id ≡ "")
        × (is_some (get_trust_zone_by_id lds.config (get_text b.trust_zone_id)) ≡ true)
        × (is_some (get_attestation_policy_by_id lds.config (get_text b.policy_id)) ≡ true)
        × ((add_ap_binding lib loader (ok id) b lds).1.config ≡ record lds.config {
          ap_bindings = lds.config.ap_bindings ++ record b { id = some id } ∷ [];
        })
  unfolding add_ap_binding
  bound_in id b new lds h = ground (
    arith,
    clone_ap_binding_lem lib laws b,
    clone_ap_binding_lem lib laws (record b { id = some id }),
    eq_iff (get_text b.id) "",
  )

  add_ap_binding_refused :
      (id : String) (b : ApBinding) (lds : LocalDataSource S)
      → get_text b.id ≡ ""
      → is_some (get_trust_zone_by_id lds.config (get_text b.trust_zone_id)) ≡ true
      → is_some (get_attestation_policy_by_id lds.config (get_text b.policy_id)) ≡ true
      → any (same_binding b) lds.config.ap_bindings ≡ true
      → add_ap_binding lib loader (ok id) b lds
        ≡ (err (already_bound (get_text b.policy_id) (get_text b.trust_zone_id)), lds)
  unfolding add_ap_binding
  add_ap_binding_refused id b lds no_id zone policy bound =
      ground (arith, clone_ap_binding_lem lib laws b, eq_iff (get_text b.id) "")

  -- Adding a binding a second time fails, whatever UUID it would get.
  add_ap_binding_twice :
      (id id' : String) (b new : ApBinding) (lds : LocalDataSource S)
      → (add_ap_binding lib loader (ok id) b lds).0 ≡ ok new
      → let after = (add_ap_binding lib loader (ok id) b lds).1 in
        add_ap_binding lib loader (ok id') b after
        ≡ (err (already_bound (get_text b.policy_id) (get_text b.trust_zone_id)), after)
  unfolding get_trust_zone_by_id get_attestation_policy_by_id
  add_ap_binding_twice id id' b new lds h =
      let (made, no_id, zone, policy, changed) = bound_in id b new lds h in
      let same : same_binding b (record b { id = some id }) ≡ true = ground (
        arith,
        eq_iff (get_text b.policy_id) (get_text b.policy_id),
        eq_iff (get_text b.trust_zone_id) (get_text b.trust_zone_id),
      ) in
      add_ap_binding_refused id' b _ no_id (rw changed zone) (rw changed policy)
        (rw changed (any_last (same_binding b) lds.config.ap_bindings _ same))

  -- A listing whose trust zone filter names an existing trust zone, or none, returns exactly the
  -- bindings that pass the filter.
  list_ap_bindings_lem :
      (f : Option BindingFilter) (lds : LocalDataSource S)
      → unknown_zone lds.config f ≡ false
      → (list_ap_bindings lib loader f lds).0
        ≡ ok (filter (binding_passes f) lds.config.ap_bindings)
  unfolding list_ap_bindings
  list_ap_bindings_lem f lds known = ground (
    arith,
    clone_all_lem _ (clone_ap_binding_lem lib laws)
        (filter (binding_passes f) lds.config.ap_bindings),
  )
