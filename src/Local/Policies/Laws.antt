-- ===== src/Local/Policies/Laws.antt =====
-- pkg/plugin/local/local.go: what the attestation policy methods promise.
use cofidectl.Common.{
  ◌≡◌, ◌≢◌, String, none, some, [], ◌∷◌, ◌++◌, arith, eq_iff, get_text, find_first,
  find_first-append, remove_first,
}
use cofidectl.Common.Errors.{ok, err, not_found, policy_kind, policy_bound}
use cofidectl.Common.Keys.{All, find_first-remove_first_ne, find_first-remove_first, All-ne_of_none}
use cofidectl.Config.{
  policy_has_id, policy_has_name, get_attestation_policy_by_name, get_attestation_policy_by_id,
}
use cofidectl.Config.Messages.{AttestationPolicy, ApBinding}
use cofidectl.Config.WellFormed.{WellFormed, policy_id}
use cofidectl.Config.Loader.{Loader}
use cofidectl.Proto.{ProtoLib, IsProtoLib, clone_attestation_policy_lem}
use cofidectl.Local.{LocalDataSource}
use cofidectl.Local.Policies.{
  add_attestation_policy, destroy_attestation_policy, get_attestation_policy,
  get_attestation_policy_named, binding_of_policy,
}

module _ {S : Type 0} (lib : ProtoLib) (laws : IsProtoLib lib) (loader : Loader S) where
  added :
      (id : String) (x new : AttestationPolicy) (lds : LocalDataSource S)
      → (add_attestation_policy lib loader (ok id) x lds).0 ≡ ok new
      → (new ≡ record x { id = some id })
        × (get_attestation_policy_by_id lds.config id ≡ none)
        × (get_attestation_policy_by_name lds.config x.name ≡ none)
        × ((add_attestation_policy lib loader (ok id) x lds).1.config.attestation_policies
            ≡ lds.config.attestation_policies ++ record x { id = some id } ∷ [])
  unfolding add_attestation_policy
  added id x new lds h = ground (
    arith,
    clone_attestation_policy_lem lib laws x,
    clone_attestation_policy_lem lib laws (record x { id = some id }),
  )

  -- An attestation policy that was added is what both lookups then return, with no condition on its
  -- UUID: the method itself refuses one that is in use.
  pub get-add_attestation_policy :
      (id : String) (x new : AttestationPolicy) (lds : LocalDataSource S)
      → (add_attestation_policy lib loader (ok id) x lds).0 ≡ ok new
      → let after = (add_attestation_policy lib loader (ok id) x lds).1 in
        (new ≡ record x { id = some id })
        × ((get_attestation_policy lib loader id after).0 ≡ ok new)
        × ((get_attestation_policy_named lib loader x.name after).0 ≡ ok new)
  unfolding get_attestation_policy get_attestation_policy_named get_attestation_policy_by_id
      get_attestation_policy_by_name find_first
  get-add_attestation_policy id x new lds h =
      let (made, absent, named, appended) = added id x new lds h in
      let x' : AttestationPolicy = record x { id = some id } in
      ground (
        arith,
        appended,
        absent,
        named,
        find_first-append (policy_has_id id) lds.config.attestation_policies (x' ∷ []),
        find_first-append (policy_has_name x.name) lds.config.attestation_policies (x' ∷ []),
        eq_iff id id,
        eq_iff x.name x.name,
        clone_attestation_policy_lem lib laws x',
      )

  -- While a binding names an attestation policy, destroying the policy fails and changes nothing.
  destroy_attestation_policy_bound :
      (id zone_id : String) (b : ApBinding) (lds : LocalDataSource S)
      → find_first (binding_of_policy id) lds.config.ap_bindings ≡ some b
      → b.trust_zone_id ≡ some zone_id
      → destroy_attestation_policy lib loader id lds ≡ (err (policy_bound id zone_id), lds)
  unfolding destroy_attestation_policy
  destroy_attestation_policy_bound id zone_id b lds found zone = ground arith

  destroyed :
      (id : String) (lds : LocalDataSource S)
      → (destroy_attestation_policy lib loader id lds).0 ≡ ok tt
      → (find_first (binding_of_policy id) lds.config.ap_bindings ≡ none)
        × ((destroy_attestation_policy lib loader id lds).1.config.attestation_policies
            ≡ remove_first (policy_has_id id) lds.config.attestation_policies)
        × ((destroy_attestation_policy lib loader id lds).1.config.ap_bindings
            ≡ lds.config.ap_bindings)
  unfolding destroy_attestation_policy
  destroyed id lds h = ground arith

  -- From a well-formed configuration, an attestation policy that was destroyed is not found by
  -- its id any more, no binding names it, and every other id leads to what it led to before.
  pub destroy_attestation_policy_done :
      (id : String) (lds : LocalDataSource S)
      → WellFormed lds.config
      → (destroy_attestation_policy lib loader id lds).0 ≡ ok tt
      → let after = (destroy_attestation_policy lib loader id lds).1 in
        (get_attestation_policy lib loader id after ≡ (err (not_found policy_kind id), after))
        × (All (λ b. get_text b.policy_id ≢ id) after.config.ap_bindings)
        × ((j : String)
            → j ≢ id
            → get_attestation_policy_by_id after.config j
              ≡ get_attestation_policy_by_id lds.config j)
  unfolding get_attestation_policy get_attestation_policy_by_id
  destroy_attestation_policy_done id lds w h =
      let (unbound, removed, kept) = destroyed id lds h in
      (
        ground (
          arith,
          removed,
          find_first-remove_first policy_id id lds.config.attestation_policies w.policies.ids,
        ),
        rw kept (All-ne_of_none (λ (b : ApBinding). get_text b.policy_id) id _ unbound),
        λ j n.
            rw removed
              (find_first-remove_first_ne policy_id id j lds.config.attestation_policies n),
      )
