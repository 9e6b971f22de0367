-- ===== src/Config/WellFormed/Changes.antt =====
-- The changes that the data source makes to a configuration, and that each keeps it well-formed.
use cofidectl.Common.{
  ◌≡◌, ◌≢◌, refl, sym, String, none, some, List, [], ◌∷◌, ◌++◌, get_text, find_first,
  find_first-passes, replace_first, eq_of_test,
}
use cofidectl.Common.Keys.{
  All, All-both, All-map, All-ne_of_none, Unique-append, Unique-replace_first,
}
use cofidectl.Config.{Config, zone_has_id, get_trust_zone_by_name}
use cofidectl.Config.Messages.{TrustZone, Cluster, AttestationPolicy, ApBinding, Federation}
use cofidectl.Config.WellFormed.{
  zone_id, zone_name, HasZone, HasPolicy, DistinctClusters, DistinctPolicies, SoundBindings,
  SoundFederations, WellFormed, HasZone-append, HasZone-replace,
}

module _ {c : Config} (w : WellFormed c) where
  -- References move along a change of the trust zones that keeps what the references need.
  rebase_bindings :
      (zones : List TrustZone)
      → ((id : String) → HasZone c.trust_zones id → HasZone zones id)
      → SoundBindings zones c.attestation_policies c.ap_bindings
  rebase_bindings zones keep = record {
    ids = w.bindings.ids;
    pairs = w.bindings.pairs;
    bound = All-map _ (λ b h. (keep _ h.0, h.1)) c.ap_bindings w.bindings.bound;
  }

  rebase_federations :
      (zones : List TrustZone)
      → ((id : String) → HasZone c.trust_zones id → HasZone zones id)
      → SoundFederations zones c.federations
  rebase_federations zones keep = record {
    ids = w.federations.ids;
    pairs = w.federations.pairs;
    joined = All-map _ (λ f h. (keep _ h.0, keep _ h.1, h.2)) c.federations w.federations.joined;
  }

  pub add_zone :
      (tz : TrustZone)
      → All (λ z. zone_id z ≢ zone_id tz) c.trust_zones
      → get_trust_zone_by_name c tz.name ≡ none
      → WellFormed (record c { trust_zones = c.trust_zones ++ tz ∷ [] })
  unfolding get_trust_zone_by_name
  add_zone tz fresh new_name = record {
    zones = record {
      ids = Unique-append zone_id c.trust_zones tz w.zones.ids fresh;
      names =
          Unique-append zone_name c.trust_zones tz w.zones.names
            (All-ne_of_none zone_name tz.name c.trust_zones new_name);
    };
    clusters = w.clusters;
    policies = w.policies;
    bindings = rebase_bindings _ (HasZone-append c.trust_zones tz);
    federations = rebase_federations _ (HasZone-append c.trust_zones tz);
  }

  pub replace_zone :
      (tz current : TrustZone)
      → find_first (zone_has_id (zone_id tz)) c.trust_zones ≡ some current
      → tz.name ≡ current.name
      → WellFormed
          (record c { trust_zones = replace_first (zone_has_id (zone_id tz)) tz c.trust_zones })
  replace_zone tz current found same_name = record {
    zones = record {
      ids =
          Unique-replace_first zone_id _ tz current c.trust_zones found
            (sym (eq_of_test _ _ (find_first-passes _ c.trust_zones current found))) w.zones.ids;
      names =
          Unique-replace_first zone_name _ tz current c.trust_zones found same_name w.zones.names;
    };
    clusters = w.clusters;
    policies = w.policies;
    bindings = rebase_bindings _ (λ id. HasZone-replace c.trust_zones (zone_id tz) id tz refl);
    federations =
        rebase_federations _ (λ id. HasZone-replace c.trust_zones (zone_id tz) id tz refl);
  }

  pub set_clusters :
      (clusters : List Cluster)
      → DistinctClusters clusters
      → WellFormed (record c { clusters = clusters })
  set_clusters clusters d = record {
    zones = w.zones;
    clusters = d;
    policies = w.policies;
    bindings = w.bindings;
    federations = w.federations;
  }

  pub set_bindings :
      (bindings : List ApBinding)
      → SoundBindings c.trust_zones c.attestation_policies bindings
      → WellFormed (record c { ap_bindings = bindings })
  set_bindings bindings s = record {
    zones = w.zones;
    clusters = w.clusters;
    policies = w.policies;
    bindings = s;
    federations = w.federations;
  }

  pub set_federations :
      (federations : List Federation)
      → SoundFederations c.trust_zones federations
      → WellFormed (record c { federations = federations })
  set_federations federations s = record {
    zones = w.zones;
    clusters = w.clusters;
    policies = w.policies;
    bindings = w.bindings;
    federations = s;
  }

  pub set_policies :
      (policies : List AttestationPolicy)
      → DistinctPolicies policies
      → All (λ b. HasPolicy policies (get_text b.policy_id)) c.ap_bindings
      → WellFormed (record c { attestation_policies = policies })
  set_policies policies d keep = record {
    zones = w.zones;
    clusters = w.clusters;
    policies = d;
    bindings = record {
      ids = w.bindings.ids;
      pairs = w.bindings.pairs;
      bound = All-both (λ b h q. (h.0, q)) c.ap_bindings w.bindings.bound keep;
    };
    federations = w.federations;
  }
