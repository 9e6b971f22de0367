-- ===== src/Spire.antt =====
-- pkg/spire/spire.go: what is read from the pods and the service of a SPIRE server, as Kubernetes reports
-- them, by the fields in use.
pub mod Wait
use cofidectl.Common.{
  String, ◌==◌, Bool, true, false, not, ◌&&◌, Option, none, some, List, [], ◌∷◌, if◌then◌else◌,
}
use cofidectl.Common.Errors.{Error, Result, ok, err, no_ingress}

pub record Condition : Type 0 where
  pub kind : String
  pub status : String

pub record ContainerStatus : Type 0 where
  pub name : String
  pub ready : Bool

pub record Pod : Type 0 where
  pub name : String
  pub conditions : List Condition
  pub container_statuses : List ContainerStatus

pub record Ingress : Type 0 where
  pub hostname : String
  pub ip : String

pub record Service : Type 0 where
  pub name : String
  pub ingress : List Ingress

-- `ServerContainer` and `SCMContainer`
pub record ServerContainer : Type 0 where
  pub name : String
  pub ready : Bool

-- The first container with a name, under the name of its pod.
unfoldable pub container_named : String → String → List ContainerStatus → Option ServerContainer
container_named pod_name name [] = none
container_named pod_name name (c ∷ cs) =
    let rest = container_named pod_name name cs in
    if c.name == name then some (record { name = pod_name; ready = c.ready }) else rest

abbrev and_then : Option ServerContainer → List ServerContainer → List ServerContainer
and_then none cs = cs
and_then (some c) cs = c ∷ cs

unfoldable pub containers_named : String → List Pod → List ServerContainer
unfolding container_named
containers_named name [] = []
containers_named name (pod ∷ pods) =
    and_then (container_named pod.name name pod.container_statuses) (containers_named name pods)

-- `getServerContainers` and `getSCMContainers`
unfoldable pub get_server_containers : List Pod → List ServerContainer
unfolding containers_named
get_server_containers pods = containers_named "spire-server" pods

unfoldable pub get_scm_containers : List Pod → List ServerContainer
unfolding containers_named
get_scm_containers pods = containers_named "spire-controller-manager" pods

-- `isPodReady`, on the conditions of the pod
unfoldable pub is_pod_ready : List Condition → Bool
is_pod_ready [] = false
is_pod_ready (c ∷ cs) =
    let rest = is_pod_ready cs in if c.kind == "Ready" && c.status == "True" then true else rest

abbrev external_ip : Ingress → Result String
external_ip i =
    if not (i.hostname == "")
    then ok i.hostname
    else if not (i.ip == "")
    then ok i.ip
    else err no_ingress

-- `getServiceExternalIP`, on the ingress of the load balancer of the service
unfoldable pub get_service_external_ip : List Ingress → Result String
get_service_external_ip [] = err no_ingress
get_service_external_ip (i ∷ []) = external_ip i
get_service_external_ip (i ∷ j ∷ is) = err no_ingress
