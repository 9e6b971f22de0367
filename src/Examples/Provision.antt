-- ===== src/Examples/Provision.antt =====
-- A deployment and a removal of the small configuration, with a Helm and a Kubernetes that do nothing.
use cofidectl.Common.{
  ◌≡◌, ◌≢◌, refl, String, Bool, true, false, Option, none, [], ne_of_test, filter,
}
use cofidectl.Common.Errors.{Error, Result, ok, err, library, skip_wait_with_federations}
use cofidectl.Common.Action.{Action, raise}
use cofidectl.Values.{no_fields}
use cofidectl.Config.{Config}
use cofidectl.Config.Messages.{FederationFilter, Bundle}
use cofidectl.DataSource.{DataSource}
use cofidectl.Proto.{clone_federation_lem}
use cofidectl.Local.{clone_all_lem}
use cofidectl.Local.Federations.{list_federations, federation_passes}
use cofidectl.Local.Source.{SourceState, local_source}
use cofidectl.Helm.Entries.{SpiffeId}
use cofidectl.Provision.{watch_provision_status}
use cofidectl.Provision.Tells.{Tells}
use cofidectl.Provision.Interface.{DeployOpts, TearDownOpts, Provision}
use cofidectl.Provision.Helm.Repository.{RepositoryFiles}
use cofidectl.Provision.Helm.{HelmSdk, release_not_found}
use cofidectl.Provision.Spire.Api.{ProviderFactory, SpireApi, SpireApiFactory}
use cofidectl.Provision.Spire.{tear_down, list_trust_zone_clusters}
use cofidectl.Provision.Spire.Deploy.{deploy}
use cofidectl.Provision.Spire.Factory.{
  helm_spire_provider_factory, helm_spire_provider_factory-BuildsTelling,
}
use cofidectl.Provision.Spire.Plugin.{spire_helm}
use cofidectl.Provision.Spire.Report.{
  BuildsTelling, tear_down-Tells, deploy-Tells, deploy_skip_wait_refused,
}
use cofidectl.Provision.Grpc.{JsonLib, Service, provision_client, provision_server}
use cofidectl.Provision.Grpc.Laws.{Carries, tear_down_over_grpc, deploy_over_grpc}
use cofidectl.Examples.Data.{copying, copying-IsProtoLib, keeping, uuids, source}

abbrev pub World : Type 0
World = SourceState (Option Config)

abbrev idle : HelmSdk World (Unit {0})
idle = record {
  default_kube_config = λ w. "config";
  init = λ s w. (ok tt, w);
  history = λ s chart w. (release_not_found, w);
  locate_chart = λ s ref version w. (ok ref, w);
  load = λ path w. (ok tt, w);
  install = λ s chart c values w. (ok tt, w);
  upgrade = λ s chart c values w. (ok tt, w);
  uninstall = λ s chart w. (ok tt, w);
  is_reachable = λ s w. (ok tt, w);
}

abbrev no_files : RepositoryFiles World (Unit {0})
no_files = record {
  mkdir_all = λ w. (ok tt, w);
  try_lock = λ w. (ok true, w);
  unlock = λ w. w;
  load_file = λ w. (ok tt, w);
  new_file = tt;
  write_file = λ f w. (ok tt, w);
  new_chart_repository = λ name url w. (ok tt, w);
  download_index_file = λ name url w. (ok tt, w);
  update = λ name url f. f;
}

abbrev any_id : SpiffeId
any_id = record { trust_domain_from_string = λ s. ok s; from_path = λ td path. ok path }

abbrev no_bundle : Option Bundle → Result String
no_bundle b = ok "{}"

abbrev pub text : Error → String
text e = "failed"

pub text-named : (e : Error) → text e ≢ ""
text-named e = ne_of_test "failed" "" refl

abbrev pub factory : ProviderFactory World
factory = helm_spire_provider_factory idle no_files none any_id no_bundle text

pub factory-BuildsTelling : BuildsTelling text factory
factory-BuildsTelling =
    helm_spire_provider_factory-BuildsTelling idle no_files none any_id no_bundle text text-named

helm_spire_provider_factory-BuildsTelling_example :
    BuildsTelling text (helm_spire_provider_factory idle no_files none any_id no_bundle text)
helm_spire_provider_factory-BuildsTelling_example =
    helm_spire_provider_factory-BuildsTelling idle no_files none any_id no_bundle text text-named

abbrev api : SpireApi World
api = record {
  wait_for_server_ip = λ w. (ok "10.0.0.1", w);
  get_bundle = λ w. (ok (record { trust_domain = "beta.test"; encoded = [] }), w);
}

abbrev pub apis : SpireApiFactory World
apis = record { build = λ config context w. (ok api, w) }

abbrev pub local : DataSource World
local = local_source copying keeping uuids

-- The local data source, but for a list of federations that fails.
abbrev pub broken : DataSource World
broken = record local { list_federations = λ f. raise (library "down") }

abbrev all_zones : TearDownOpts
all_zones = record { kube_cfg_file = ""; trust_zone_ids = [] }

abbrev skipping : Bool → DeployOpts
skipping skip = record { kube_cfg_file = ""; trust_zone_ids = []; skip_wait = skip }

tear_down-Tells_example : Tells text (tear_down text factory local all_zones)
tear_down-Tells_example =
    tear_down-Tells text text-named factory factory-BuildsTelling local all_zones

pub local-lists :
    (f : Option FederationFilter) (w : World) (e : Error) → (local.list_federations f w).0 ≢ err e
unfolding local_source list_federations
local-lists f w e h =
    let all =
      clone_all_lem _ (clone_federation_lem copying copying-IsProtoLib)
        (filter (federation_passes f) w.lds.config.federations) in
    cc

deploy-Tells_example : Tells text (deploy text none factory apis local (skipping false))
deploy-Tells_example =
    deploy-Tells text text-named none factory factory-BuildsTelling apis local local-lists
      (skipping false)

deploy_skip_wait_refused_example :
    let (r, s) =
      deploy text none factory apis local (skipping true) (record { sent = []; world = source }) in
    (r ≡ err skip_wait_with_federations)
    × (s.world ≡ source)
    × (watch_provision_status s.sent ≡ err (library (text skip_wait_with_federations)))
unfolding local_source list_trust_zone_clusters cofidectl.Local.Zones.list_trust_zones
    cofidectl.Local.clone_all cofidectl.Proto.clone_trust_zone
    cofidectl.Local.Clusters.list_clusters cofidectl.Config.get_clusters_by_trust_zone filter
    cofidectl.Proto.clone_cluster list_federations cofidectl.Proto.clone_federation
deploy_skip_wait_refused_example =
    deploy_skip_wait_refused text text-named none factory factory-BuildsTelling apis local
      (skipping true) source refl refl refl

abbrev plain_json : JsonLib (Unit {0})
plain_json = record { marshal = λ m. ok tt; unmarshal = λ j. ok no_fields; new_struct = λ m. ok m }

abbrev direct : DataSource World → Action World (DataSource World)
direct ds w = (ok ds, w)

abbrev itself : DataSource World → DataSource World
itself ds = ds

abbrev pub plugin : Provision World
plugin = spire_helm text none factory apis

abbrev served : Service World
served = provision_server plain_json direct plugin

abbrev kept : Error → Error
kept e = e

served-Carries : Carries direct itself served served
served-Carries = record {
  connects = λ ds w. refl;
  deploy = λ req w. refl;
  tear_down = λ req w. refl;
}

tear_down_over_grpc_example :
    (provision_client text kept served).tear_down local all_zones source
    ≡ plugin.tear_down local all_zones source
tear_down_over_grpc_example =
    tear_down_over_grpc text kept plain_json direct itself none factory apis served served-Carries
      local all_zones source

deploy_over_grpc_example :
    (provision_client text kept served).deploy local (skipping true) source
    ≡ plugin.deploy local (skipping false) source
deploy_over_grpc_example =
    deploy_over_grpc text kept plain_json direct itself none factory apis served served-Carries
      local (skipping true) source
