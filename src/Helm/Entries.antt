-- ===== src/Helm/Entries.antt =====
-- internal/pkg/attestationpolicy/attestationpolicy.go: the Helm values of the registration entries of
-- an attestation policy. The `spiffeid` library is a parameter.
pub mod Laws
use Prim.Native.String.{◌++◌}
use cofidectl.Common.{
  ◌≡◌, refl, ◌↔◌, String, ◌==◌, Bool, true, false, ◌&&◌, ◌||◌, not, Option, none, some, List, [],
  ◌∷◌, map, if◌then◌else◌, get_text, is_empty, find_first, arith,
}
use cofidectl.Common.Errors.{Error, Result, ok, err, panic, invalid_selector}
use cofidectl.Common.Errors
use cofidectl.Common.Action.{Action, pure, lift, ◌>>=◌, ◌>>◌}
use cofidectl.Values.{Value, Items, Fields, text, list, object, no_items, item, no_fields, field}
use cofidectl.Config.Messages.{
  TrustZone, ApBinding, ApBindingFederation, Kubernetes, Static, Selector, LabelSelector,
  MatchExpression,
}
use cofidectl.DataSource.{DataSource}
use cofidectl.Helm.Maps.{get, put}

-- `spiffeid.TrustDomainFromString`, and `spiffeid.FromPath` followed by `String`.
pub record SpiffeId : Type 0 where
  pub trust_domain_from_string : String → Result String
  pub from_path : String → String → Result String

abbrev spiffe_td_id_template : String
spiffe_td_id_template = "spiffe://{{ .TrustDomain }}/"

-- A `[]string` in a map of values.
unfoldable pub texts : List String → Items
texts [] = no_items
texts (s ∷ ss) = item (text s) (texts ss)

unfoldable pub label_values : List (String × String) → Fields → Fields
label_values [] labels = labels
label_values ((k, v) ∷ more) labels = label_values more (put k (text v) labels)

abbrev expression_value : MatchExpression → Value
unfolding texts
expression_value me = object (
    field "key" (text me.key)
      (field "operator" (text me.operator) (field "values" (list (texts me.values)) no_fields)))

unfoldable pub expression_values : List MatchExpression → Items
unfolding texts
expression_values [] = no_items
expression_values (me ∷ mes) = item (expression_value me) (expression_values mes)

-- `getAPLabelSelectorHelmConfig`
unfoldable pub get_ap_label_selector_helm_config : LabelSelector → Option Fields
unfolding label_values expression_values
get_ap_label_selector_helm_config selector =
    if is_empty selector.match_labels && is_empty selector.match_expressions
    then none
    else some (
        field "matchLabels" (object (label_values selector.match_labels no_fields)) (
          field "matchExpressions" (list (expression_values selector.match_expressions)) no_fields))

abbrev pub is_blank : Selector → Bool
is_blank selector = selector.type_name == "" || selector.value == ""

abbrev pub formatted : Selector → String
formatted selector = selector.type_name ++ ":" ++ selector.value

-- `formatSelectors`
unfoldable pub format_selectors : List Selector → Result (List String)
format_selectors [] = ok []
format_selectors (s ∷ ss) =
    let rest = format_selectors ss in
    if is_blank s
    then err (invalid_selector s.type_name s.value)
    else Errors.◌>>=◌ rest λ done. ok (formatted s ∷ done)

-- The assignments that the source makes under a condition.
abbrev pub put_some : String → Option Value → Fields → Fields
put_some k none m = m
put_some k (some v) m = put k v m

abbrev selector_value : Option LabelSelector → Option Value
unfolding get_ap_label_selector_helm_config
selector_value none = none
selector_value (some selector) = elim (get_ap_label_selector_helm_config selector) [
  | none ↦ none
  | some m ↦ some (object m)
]

-- `getAPDNSNameTemplatesHelmConfig`, and the tests of a length elsewhere: a slice is set if it is not
-- empty.
abbrev pub texts_value : List String → Option Value
unfolding texts
texts_value [] = none
texts_value (t ∷ ts) = some (list (texts (t ∷ ts)))

abbrev template_value : String → Option Value
template_value template =
    if not (template == "") then some (text (spiffe_td_id_template ++ template)) else none

abbrev pub kubernetes_values : Kubernetes → Fields
unfolding selector_value texts_value
kubernetes_values kubernetes =
    put_some "dnsNameTemplates" (texts_value kubernetes.dns_name_templates) (
      put_some "spiffeIDTemplate" (template_value (get_text kubernetes.spiffe_id_path_template)) (
        put_some "podSelector" (selector_value kubernetes.pod_selector)
          (put_some "namespaceSelector" (selector_value kubernetes.namespace_selector) no_fields)))

-- `renderSPIFFEID`
unfoldable pub render_spiffe_id : SpiffeId → String → String → Result String
render_spiffe_id lib trust_domain path =
    Errors.◌>>=◌ (lib.trust_domain_from_string trust_domain) λ td. lib.from_path td ("/" ++ path)

module _ {D : Type 0} (ds : DataSource D) where
  -- The loop of `makeFederatesWith`
  unfoldable pub federated_domains : List ApBindingFederation → Action D (List String)
  federated_domains [] = pure []
  federated_domains (fed ∷ feds) =
      let rest = federated_domains feds in
      do
        tz ← ds.get_trust_zone (get_text fed.trust_zone_id)
        domains ← rest
        pure (tz.trust_domain ∷ domains)

  unfoldable pub make_federates_with : ApBinding → Action D (List String)
  unfolding federated_domains
  make_federates_with binding = federated_domains binding.federations

  -- `MakeClusterSPIFFEID`
  unfoldable pub make_cluster_spiffe_id : Kubernetes → ApBinding → Action D Fields
  unfolding make_federates_with kubernetes_values
  make_cluster_spiffe_id kubernetes binding = do
    federates_with ← make_federates_with binding
    pure (put_some "federatesWith" (texts_value federates_with) (kubernetes_values kubernetes))

  -- `MakeClusterStaticEntry`
  unfoldable pub make_cluster_static_entry : SpiffeId → Static → ApBinding → Action D Fields
  unfolding make_federates_with texts format_selectors render_spiffe_id
  make_cluster_static_entry lib static binding = do
    selectors ← lift (format_selectors static.selectors)
    tz ← ds.get_trust_zone (get_text binding.trust_zone_id)
    spiffe_id ← lift (render_spiffe_id lib tz.trust_domain (get_text static.spiffe_id_path))
    parent_id ← lift (render_spiffe_id lib tz.trust_domain (get_text static.parent_id_path))
    let entry =
        field "spiffeID" (text spiffe_id)
          (field "parentID" (text parent_id) (field "selectors" (list (texts selectors)) no_fields))
    let named = put_some "dnsNames" (texts_value static.dns_names) entry
    federates_with ← make_federates_with binding
    pure (put_some "federatesWith" (texts_value federates_with) named)
