-- ===== src/Provision/Grpc/Laws.antt =====
-- pkg/plugin/provision/plugin.go: the SPIRE Helm plugin behind gRPC, against the plugin itself.
use cofidectl.Common.{◌≡◌, refl, String, false, Option}
use cofidectl.Common.Errors.{Error, Result, ok, err, panic}
use cofidectl.Common.Action.{Action}
use cofidectl.DataSource.{DataSource}
use cofidectl.Provision.{Sending}
use cofidectl.Provision.Interface.{DeployOpts, TearDownOpts}
use cofidectl.Provision.Grpc.{
  RunRequest, Service, JsonLib, relayed, mapped, streamed, provision_client, provision_server,
}
use cofidectl.Provision.Spire.Api.{ProviderFactory, SpireApiFactory}
use cofidectl.Provision.Spire.Plugin.{channel, spire_helm}

-- The documented behaviour of gRPC and of the broker: a stream arrives as it was sent, and a data
-- source that is served is reached by the client for it.
pub record Carries {W : Type 0} (connect : DataSource W → Action W (DataSource W))
    (reach : DataSource W → DataSource W) (server stub : Service W) : Type 0 where
  pub connects : (ds : DataSource W) (w : W) → connect ds w ≡ (ok (reach ds), w)
  pub deploy : (req : RunRequest W) (w : W) → stub.deploy req w ≡ server.deploy req w
  pub tear_down : (req : RunRequest W) (w : W) → stub.tear_down req w ≡ server.tear_down req w

-- The channel of a goroutine is relayed message by message.
relayed-channel :
    {W A : Type 0} (error_text : Error → String) (wrap_error : Error → Error) (stage : String)
    (o : Result A × Sending W)
    → mapped
        (λ stream. ok (relayed error_text wrap_error stage stream))
        wrap_error
        (streamed (channel o))
      ≡ channel o
unfolding relayed
relayed-channel error_text wrap_error stage (ok a, s) = refl
relayed-channel error_text wrap_error stage (err e, s) = refl
relayed-channel error_text wrap_error stage (panic, s) = refl

module _ {W J : Type 0} (error_text : Error → String) (wrap_error : Error → Error)
    (json : JsonLib J) (connect : DataSource W → Action W (DataSource W))
    (reach : DataSource W → DataSource W) (repo_path : Option String)
    (providers : ProviderFactory W) (apis : SpireApiFactory W) (stub : Service W)
    (carries : Carries connect reach
      (provision_server json connect (spire_helm error_text repo_path providers apis))
      stub) where
  -- If gRPC and its broker carry what is sent, a removal by the SPIRE Helm plugin behind gRPC is a removal
  -- by the plugin itself, with the data source as it is reached: the same messages, and the same world.
  pub tear_down_over_grpc :
      (ds : DataSource W) (opts : TearDownOpts) (w : W)
      → (provision_client error_text wrap_error stub).tear_down ds opts w
        ≡ (spire_helm error_text repo_path providers apis).tear_down (reach ds) opts w
  unfolding provision_client provision_server spire_helm
  tear_down_over_grpc ds opts w =
      rw (carries.tear_down _ w, carries.connects ds w)
        (relayed-channel error_text wrap_error "Tearing down" _)

  -- If gRPC and its broker carry what is sent, a deployment by the SPIRE Helm plugin behind gRPC is the
  -- deployment by the plugin itself without `SkipWait`, with the data source as it is reached: the
  -- option that the caller gives is lost.
  pub deploy_over_grpc :
      (ds : DataSource W) (opts : DeployOpts) (w : W)
      → (provision_client error_text wrap_error stub).deploy ds opts w
        ≡ (spire_helm error_text repo_path providers apis).deploy
            (reach ds)
            (record opts { skip_wait = false })
            w
  unfolding provision_client provision_server spire_helm
  deploy_over_grpc ds opts w =
      rw (carries.deploy _ w, carries.connects ds w)
        (relayed-channel error_text wrap_error "Deploying" _)
