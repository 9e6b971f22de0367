-- ===== src/Commands/Policies.antt =====
-- cmd/cofidectl/cmd/attestationpolicy/attestationpolicy.go: the commands that add and delete an attestation
-- policy. The parser of Kubernetes label selectors is a parameter.
use cofidectl.Common.{
  ap, String, ◌==◌, not, Option, none, some, List, [], ◌∷◌, map, if◌then◌else◌, get_text, is_empty,
}
use cofidectl.Common.Errors.{Error, Result, ok, err, panic, wrap, label_invalid, policy_still_bound}
use cofidectl.Common.Errors
use cofidectl.Common.Action.{Action, pure, lift, fail_if, ◌>>=◌, ◌>>◌}
use cofidectl.Config.Messages.{LabelSelector, MatchExpression, kubernetes, static, tpm_node}
use cofidectl.DataSource.{DataSource}
use cofidectl.Commands.Selectors.{parse_selectors}

-- `metav1.LabelSelector`
pub record K8sRequirement : Type 0 where
  pub key : String
  pub operator : String
  pub values : List String

pub record K8sLabelSelector : Type 0 where
  pub match_labels : List (String × String)
  pub match_expressions : List K8sRequirement

abbrev expression_of : K8sRequirement → MatchExpression
expression_of e = record { key = e.key; operator = e.operator; values = e.values }

-- `apLabelSelectorFromK8sLS`
unfoldable pub ap_label_selector_from_k8s : K8sLabelSelector → LabelSelector
ap_label_selector_from_k8s s = record {
  match_labels = s.match_labels;
  match_expressions = map expression_of s.match_expressions;
}

-- `parseLabelSelector`, given `metav1.ParseToLabelSelector`
unfoldable pub parse_label_selector :
    (String → Result K8sLabelSelector) → String → Result LabelSelector
unfolding ap_label_selector_from_k8s
parse_label_selector parse selector =
    Errors.◌>>=◌ (wrap (label_invalid selector) (parse selector))
      λ s. ok (ap_label_selector_from_k8s s)

pub record AddK8sOpts : Type 0 where
  pub name : String
  pub namespace : String
  pub pod_label : String
  pub spiffe_id_path_template : String
  pub dns_name_templates : List String

pub record AddStaticOpts : Type 0 where
  pub name : String
  pub spiffe_id_path : String
  pub parent_id_path : String
  pub selectors : List String
  pub dns_names : List String

pub record AddTpmNodeOpts : Type 0 where
  pub name : String
  pub ek_hash : String
  pub selector_values : List String

abbrev namespace_selector : String → Option LabelSelector
namespace_selector namespace =
    if not (namespace == "")
    then some (record {
      match_labels = ("kubernetes.io/metadata.name", namespace) ∷ [];
      match_expressions = [];
    })
    else none

abbrev pod_selector : (String → Result K8sLabelSelector) → String → Result (Option LabelSelector)
pod_selector parse label =
    if not (label == "")
    then (Errors.◌>>=◌ (parse_label_selector parse label) λ s. ok (some s))
    else ok none

module _ {W : Type 0} (ds : DataSource W) where
  -- The `RunE` of `add kubernetes`, `add static` and `add tpm-node`, once they have the data source
  unfoldable pub add_k8s_policy :
      (String → Result K8sLabelSelector) → AddK8sOpts → Action W (Unit {0})
  unfolding parse_label_selector
  add_k8s_policy parse opts = do
    pod ← lift (pod_selector parse opts.pod_label)
    ds.add_attestation_policy (record {
      id = none;
      name = opts.name;
      spec = kubernetes (record {
        namespace_selector = namespace_selector opts.namespace;
        pod_selector = pod;
        spiffe_id_path_template = some opts.spiffe_id_path_template;
        dns_name_templates = opts.dns_name_templates;
      });
    })
    pure tt

  unfoldable pub add_static_policy : AddStaticOpts → Action W (Unit {0})
  unfolding parse_selectors
  add_static_policy opts = do
    selectors ← lift (parse_selectors opts.selectors)
    ds.add_attestation_policy (record {
      id = none;
      name = opts.name;
      spec = static (record {
        spiffe_id_path = some opts.spiffe_id_path;
        parent_id_path = some opts.parent_id_path;
        selectors = selectors;
        dns_names = opts.dns_names;
      });
    })
    pure tt

  unfoldable pub add_tpm_node_policy : AddTpmNodeOpts → Action W (Unit {0})
  add_tpm_node_policy opts = do
    ds.add_attestation_policy (record {
      id = none;
      name = opts.name;
      spec =
          tpm_node (record { ek_hash = some opts.ek_hash; selector_values = opts.selector_values });
    })
    pure tt

  -- `deletePolicy`
  unfoldable pub delete_policy : String → Action W (Unit {0})
  delete_policy name = do
    ap ← ds.get_attestation_policy_named name
    bindings ← ds.list_ap_bindings (some (record { trust_zone_id = none; policy_id = ap.id }))
    fail_if (not (is_empty bindings)) (policy_still_bound name)
    ds.destroy_attestation_policy (get_text ap.id)
