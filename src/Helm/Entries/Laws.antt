-- ===== src/Helm/Entries/Laws.antt =====
-- internal/pkg/attestationpolicy/attestationpolicy.go: what the entries of a policy hold.
use cofidectl.Common.{
  ◌≡◌, refl, String, Option, none, some, List, [], ◌∷◌, map, get_text, find_first, arith, sym, ap,
  ◌∙◌, eq_iff, inl, inr,
}
use cofidectl.Common.Keys.{All}
use cofidectl.Common.Errors.{ok, err, invalid_selector, Result-cases}
use cofidectl.Values.{Value, Fields}
use cofidectl.Config.Messages.{TrustZone, ApBinding, ApBindingFederation, Kubernetes, Selector}
use cofidectl.DataSource.{DataSource}
use cofidectl.Helm.Maps.{get, put}
use cofidectl.Helm.Maps.Merging.{get-put}
use cofidectl.Helm.Entries.{
  texts_value, put_some, kubernetes_values, is_blank, formatted, format_selectors,
  federated_domains, make_federates_with, make_cluster_spiffe_id,
}

-- The selectors are formatted one by one, unless one of them has a blank part: then the first such
-- selector is the error.
format_selectors_lem :
    (selectors : List Selector)
    → format_selectors selectors ≡ elim (find_first is_blank selectors) [
      | none ↦ ok (map formatted selectors)
      | some s ↦ err (invalid_selector s.type_name s.value)
    ]
unfolding format_selectors find_first
format_selectors_lem [] = refl
format_selectors_lem (s ∷ ss) = ground (arith, format_selectors_lem ss)

get-kubernetes_values :
    (kubernetes : Kubernetes) → get "federatesWith" (kubernetes_values kubernetes) ≡ none
unfolding kubernetes_values get put
get-kubernetes_values kubernetes = ground arith

get-put_some :
    (k : String) (o : Option Value) (m : Fields) → get k m ≡ none → get k (put_some k o m) ≡ o
get-put_some k none m h = h
get-put_some k (some v) m h = ground (arith, get-put k k v m, eq_iff k k)

module _ {D : Type 0} (ds : DataSource D) where
  -- The data source answers for each of the federations without a change.
  abbrev pub Finds : (String → TrustZone) → D → List ApBindingFederation → Type 0
  Finds zone d = All λ fed.
      ds.get_trust_zone (get_text fed.trust_zone_id) d ≡ (ok (zone (get_text fed.trust_zone_id)), d)

  federated_domains_lem :
      (zone : String → TrustZone) (feds : List ApBindingFederation) (d : D)
      → Finds zone d feds
      → federated_domains ds feds d
        ≡ (ok (map (λ fed. (zone (get_text fed.trust_zone_id)).trust_domain) feds), d)
  unfolding federated_domains
  federated_domains_lem zone [] d h = refl
  federated_domains_lem zone (fed ∷ feds) d h = rw (h.0, federated_domains_lem zone feds d h.1) refl

  -- Where the data source finds the trust zones that a binding federates with and is not changed by
  -- that, the trust domains are theirs, in the order of the binding.
  make_federates_with_lem :
      (zone : String → TrustZone) (binding : ApBinding) (d : D)
      → Finds zone d binding.federations
      → make_federates_with ds binding d ≡ (
        ok (map (λ fed. (zone (get_text fed.trust_zone_id)).trust_domain) binding.federations),
        d,
      )
  unfolding make_federates_with
  make_federates_with_lem zone binding d h = federated_domains_lem zone binding.federations d h

  -- The entry names the domains that the binding federates with, exactly if there are any.
  make_cluster_spiffe_id-get :
      (kubernetes : Kubernetes) (binding : ApBinding) (d : D) (entry : Fields)
      → (make_cluster_spiffe_id ds kubernetes binding d).0 ≡ ok entry
      → (domains : List String) × ((make_federates_with ds binding d).0 ≡ ok domains)
        × (get "federatesWith" entry ≡ texts_value domains)
  unfolding make_cluster_spiffe_id
  make_cluster_spiffe_id-get kubernetes binding d entry h =
      elim (Result-cases (make_federates_with ds binding d).0) [
        | inl (domains, e) ↦
            let at : ok
                  (put_some "federatesWith" (texts_value domains) (kubernetes_values kubernetes))
                ≡ ok entry =
              rw e at h in
            let same : put_some "federatesWith" (texts_value domains) (kubernetes_values kubernetes)
                ≡ entry =
              cc in
            (
              domains,
              e,
              sym (ap (get "federatesWith") same)
                  ∙ get-put_some "federatesWith" (texts_value domains)
                      (kubernetes_values kubernetes) (get-kubernetes_values kubernetes),
            )
        | inr e ↦ ground (arith, e)
      ]
