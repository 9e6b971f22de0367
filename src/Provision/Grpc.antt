-- ===== src/Provision/Grpc.antt =====
-- pkg/plugin/provision/plugin.go: a provision plugin behind gRPC. The broker that makes the data source
-- reachable, the generated stubs and the JSON conversions are parameters.
pub mod Laws
use cofidectl.Common.{String, Bool, true, false, Option, none, some, List, [], ◌∷◌, ◌++◌, get_text}
use cofidectl.Common.Errors.{Error, Result, ok, err, panic, wrap, ◌>>=◌}
use cofidectl.Common.Action.{Action}
use cofidectl.Common.Action
use cofidectl.Values.{Fields}
use cofidectl.DataSource.{DataSource}
use cofidectl.DataSource.Grpc.{Empty, empty, nothing, received}
use cofidectl.Provision.Messages.{Status, status_error}
use cofidectl.Provision.Interface.{DeployOpts, TearDownOpts, Provision}

-- `DeployRequest` and `TearDownRequest`, by the fields that the client sets. The id of the broker's
-- server is given by the data source that is reached with it.
pub record RunRequest (W : Type 0) : Type 0 where
  pub data_source : DataSource W
  pub kube_cfg_file : Option String
  pub trust_zone_ids : List String

pub record ValuesRequest (W : Type 0) : Type 0 where
  pub data_source : DataSource W
  pub cluster_id : Option String

-- A stream of responses, and the error that ends it; `none` is its regular end.
pub record Stream : Type 0 where
  pub statuses : List Status
  pub failure : Option Error

-- `ProvisionPluginService`: the calls of the generated client and the handlers of the server.
pub record Service (W : Type 0) : Type 0 where
  pub validate : Empty → Action W Empty
  pub deploy : RunRequest W → Action W Stream
  pub tear_down : RunRequest W → Action W Stream
  pub get_helm_values : ValuesRequest W → Action W Fields

-- The functions that `valuesToStruct` calls; `J` is a JSON text.
pub record JsonLib (J : Type 0) : Type 0 where
  pub marshal : Fields → Result J
  pub unmarshal : J → Result Fields
  pub new_struct : Fields → Result Fields

-- `valuesToStruct`
unfoldable pub values_to_struct : {J : Type 0} → JsonLib J → Fields → Result Fields
values_to_struct json values = json.marshal values >>= λ values_json.
    json.unmarshal values_json >>= λ result. json.new_struct result

-- The messages that the client's goroutine passes on: those of the stream, and one for its failure.
unfoldable pub relayed : (Error → String) → (Error → Error) → String → Stream → List Status
relayed error_text wrap_error stage stream = elim stream.failure [
  | none ↦ stream.statuses
  | some e ↦ stream.statuses ++ status_error stage "Error" (error_text (wrap_error e)) ∷ []
]

abbrev pub mapped :
    {W A B : Type 0} → (A → Result B) → (Error → Error) → Result A × W → Result B × W
mapped f convert (r, w) = (wrap convert r >>= f, w)

-- `ProvisionPluginClientGRPC`; the second argument is `wrapError`.
unfoldable pub provision_client :
    {W : Type 0} → (Error → String) → (Error → Error) → Service W → Provision W
unfolding relayed
provision_client error_text wrap_error service = record {
  validate = λ w. mapped (λ resp. ok tt) wrap_error (service.validate (empty tt) w);
  deploy = λ source opts w.
      mapped (λ stream. ok (relayed error_text wrap_error "Deploying" stream)) wrap_error
        (service.deploy
          (record {
            data_source = source;
            kube_cfg_file = some opts.kube_cfg_file;
            trust_zone_ids = opts.trust_zone_ids;
          })
          w);
  tear_down = λ source opts w.
      mapped (λ stream. ok (relayed error_text wrap_error "Tearing down" stream)) wrap_error
        (service.tear_down
          (record {
            data_source = source;
            kube_cfg_file = some opts.kube_cfg_file;
            trust_zone_ids = opts.trust_zone_ids;
          })
          w);
  get_helm_values = λ source id w.
      mapped (λ values. ok values) wrap_error
        (service.get_helm_values (record { data_source = source; cluster_id = some id }) w);
}

-- The stream of a handler: the messages of the channel, or its error before the first one.
abbrev pub streamed : {W : Type 0} → Result (List Status) × W → Result Stream × W
streamed (ok statuses, w) = (ok (record { statuses = statuses; failure = none }), w)
streamed (err e, w) = (ok (record { statuses = []; failure = some e }), w)
streamed (panic, w) = (panic, w)

abbrev unchanged : Error → Error
unchanged e = e

-- `GRPCServer`; `connect` is `getDataSourceClient`: the client that the broker gives for a data source.
unfoldable pub provision_server :
    {W J : Type 0} → JsonLib J → (DataSource W → Action W (DataSource W)) → Provision W → Service W
unfolding values_to_struct
provision_server json connect impl = record {
  validate = λ req. received empty impl.validate;
  deploy = λ req w. streamed (
      (Action.◌>>=◌ (connect req.data_source) λ client. impl.deploy client (record {
        kube_cfg_file = get_text req.kube_cfg_file;
        trust_zone_ids = req.trust_zone_ids;
        skip_wait = false;
      }))
        w);
  tear_down = λ req w. streamed (
      (Action.◌>>=◌ (connect req.data_source) λ client. impl.tear_down client (record {
        kube_cfg_file = get_text req.kube_cfg_file;
        trust_zone_ids = req.trust_zone_ids;
      }))
        w);
  get_helm_values = λ req w. mapped (values_to_struct json) unchanged (
      (Action.◌>>=◌ (connect req.data_source)
          λ client. impl.get_helm_values client (get_text req.cluster_id))
        w);
}
