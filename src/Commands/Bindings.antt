-- ===== src/Commands/Bindings.antt =====
-- cmd/cofidectl/cmd/apbinding/apbinding.go: the commands on the bindings of policies to trust zones. Whether a
-- flag was given is told apart from its value.
use cofidectl.Common.{
  String, ◌==◌, Bool, true, false, not, ◌&&◌, ◌||◌, Option, none, some, List, [], ◌∷◌,
  if◌then◌else◌, get_text, is_empty,
}
use cofidectl.Common.Errors.{
  Error, Result, ok, err, panic, get_failed, not_found, zone_kind, policy_kind, conflicting_flags,
}
use cofidectl.Common.Errors
use cofidectl.Common.Action.{Action, pure, lift, fail_if, in_context, ◌>>=◌, ◌>>◌}
use cofidectl.Config.Messages.{TrustZone, ApBinding, ApBindingFederation}
use cofidectl.DataSource.{DataSource}
use cofidectl.Commands.{zone_named, the_binding}

pub record AddOpts : Type 0 where
  pub trust_zone : String
  pub attestation_policy : String
  pub federates_with : List String

pub record UpdateOpts : Type 0 where
  pub trust_zone : String
  pub attestation_policy : String
  pub federates_with : Option (List String)
  pub clear_federations : Option Bool

pub record ListOpts : Type 0 where
  pub trust_zone : String
  pub attestation_policy : String

abbrev federation_to : String → Option TrustZone → Result ApBindingFederation
federation_to name none = err (not_found zone_kind name)
federation_to name (some tz) = ok (record { trust_zone_id = tz.id })

-- The loop over the names of `--federates-with`.
unfoldable pub federations_with : List TrustZone → List String → Result (List ApBindingFederation)
unfolding zone_named
federations_with tzs [] = ok []
federations_with tzs (name ∷ names) =
    Errors.◌>>=◌ (federation_to name (zone_named name tzs))
      λ fed. Errors.◌>>=◌ (federations_with tzs names) λ feds. ok (fed ∷ feds)

abbrev is_given : {A : Type 0} → Option A → Bool
is_given none = false
is_given (some a) = true

-- The federations after `--clear-federations`.
abbrev cleared : Option Bool → ApBinding → ApBinding
cleared none b = b
cleared (some false) b = b
cleared (some true) b = record b { federations = [] }

module _ {W : Type 0} (ds : DataSource W) where
  abbrev federations_for : List String → Action W (List ApBindingFederation)
  federations_for names =
      if is_empty names
      then pure []
      else (ds.list_trust_zones >>= λ tzs. lift (federations_with tzs names))

  -- `addAPBinding`
  unfoldable pub add_ap_binding : AddOpts → Action W (Unit {0})
  unfolding federations_with
  add_ap_binding opts = do
    tz ← ds.get_trust_zone_named opts.trust_zone
    policy ← ds.get_attestation_policy_named opts.attestation_policy
    federations ← federations_for opts.federates_with
    ds.add_ap_binding (record {
      id = none;
      trust_zone_id = some (get_text tz.id);
      policy_id = some (get_text policy.id);
      federations = federations;
    })
    pure tt

  -- The `RunE` of `del`, once it has the data source
  unfoldable pub delete_ap_binding : String → String → Action W (Unit {0})
  delete_ap_binding trust_zone attestation_policy = do
    tz ← ds.get_trust_zone_named trust_zone
    policy ← ds.get_attestation_policy_named attestation_policy
    bindings ← ds.list_ap_bindings (some (record { trust_zone_id = tz.id; policy_id = policy.id }))
    binding ← the_binding bindings
    ds.destroy_ap_binding (get_text binding.id)

  -- The federations after `--federates-with`.
  abbrev refederated : Option (List String) → ApBinding → Action W ApBinding
  refederated none b = pure b
  refederated (some []) b = pure b
  refederated (some (name ∷ names)) b = ds.list_trust_zones >>= λ tzs.
      lift (federations_with tzs (name ∷ names)) >>= λ feds. pure (record b { federations = feds })

  abbrev update_found : UpdateOpts → Action W (Unit {0})
  update_found opts = do
    tz ← in_context (get_failed zone_kind) (ds.get_trust_zone_named opts.trust_zone)
    policy ←
        in_context (get_failed policy_kind)
          (ds.get_attestation_policy_named opts.attestation_policy)
    bindings ← ds.list_ap_bindings (some (record { trust_zone_id = tz.id; policy_id = policy.id }))
    binding ← the_binding bindings
    binding' ← refederated opts.federates_with (cleared opts.clear_federations binding)
    ds.update_ap_binding binding'
    pure tt

  -- `updateAPBinding`
  unfoldable pub update_ap_binding : UpdateOpts → Action W (Unit {0})
  unfolding federations_with
  update_ap_binding opts =
      if not (is_given opts.federates_with || is_given opts.clear_federations)
      then pure tt
      else fail_if (is_given opts.federates_with && is_given opts.clear_federations)
          conflicting_flags
        >> update_found opts

  -- `list`
  unfoldable pub list : ListOpts → Action W (List ApBinding)
  list opts = do
    zone_id ←
        if not (opts.trust_zone == "")
        then (ds.get_trust_zone_named opts.trust_zone >>= λ tz. pure tz.id)
        else pure none
    policy_id ←
        if not (opts.attestation_policy == "")
        then (ds.get_attestation_policy_named opts.attestation_policy >>= λ ap. pure ap.id)
        else pure none
    ds.list_ap_bindings (some (record { trust_zone_id = zone_id; policy_id = policy_id }))
