-- ===== src/Lib.antt =====
-- cofidectl: the tool that manages workload identity (SPIFFE/SPIRE) across Kubernetes clusters.
--
-- The tool keeps its state in a configuration: trust zones, the clusters in them, attestation policies,
-- bindings of policies to trust zones, and federations between trust zones. Commands act on the
-- configuration through a data source plugin; the built-in one is the local data source, which keeps
-- the configuration in memory and writes it through a loader after each change. The plugin manager
-- reads from the same configuration which plugins to load. The Helm packages turn the configuration
-- into values for the SPIRE charts.
--
-- The parts and their files:
--   Common, Values          slices, keys, Go maps, errors, methods that change an object, JSON values
--   Config                  internal/pkg/config/config.go: `Config`, its lookups, `toProto`;
--     Config/Messages       the fields of the SDK's protobuf messages that the program uses;
--     Config/Loader         internal/pkg/config/loader.go and validator.go: `Loader` and its two
--                           implementations, `validatedRead`;
--     Config/WellFormed     the invariant of a configuration
--   Proto                   internal/pkg/proto/proto.go: the clone functions
--   DataSource              pkg/plugin/datasource/interface.go: the interface as a record;
--     DataSource/Grpc       pkg/plugin/datasource/plugin.go: the client and the server of a data source
--                           behind gRPC
--   Local                   pkg/plugin/local/local.go: the local data source, in Local/Zones, Clusters,
--                           Policies, Bindings and Federations one function for each method, named as
--                           in Go but for `GetXByName`, which is get_X_named; Local/Session has
--                           histories of calls, Local/Source the data source as a `DataSource`
--   TrustZone               internal/pkg/trustzone/trustzone.go, and `addTrustZone` and
--                           `deleteTrustZone` of cmd/cofidectl/cmd/trustzone/trustzone.go, over any
--                           data source
--   Plugins                 pkg/plugin/manager/manager.go: the plugin manager; Plugins/Init, Load and
--                           Grpc have `Init`, the loading of plugins and go-plugin
--   Helm                    pkg/provider/helm/values.go: Helm/Maps has the functions on nested maps
--                           and Helm/Maps/Merging what a merge is, Helm/Sections the sections of
--                           the values, Helm/Generator `GenerateValues`;
--                           Helm/Entries: internal/pkg/attestationpolicy/attestationpolicy.go;
--                           Helm/Providers: internal/pkg/trustprovider/trustprovider.go and
--                           internal/pkg/federation/federation.go
--   Provision               pkg/plugin/provision: Provision/Interface, Messages (status.go) and Grpc
--                           (plugin.go); what a watcher reads from a channel
--                           (cmd/cofidectl/cmd/statusspinner/statusspinner.go), and what it is for a
--                           step to tell its outcome on the channel (Provision/Tells);
--     Provision/Helm        pkg/provider/helm/helm.go: charts, their repository, their releases;
--     Provision/Spire       pkg/plugin/provision/spirehelm: the deployment and the removal
--   Spire                   pkg/spire/spire.go: what is read from pods and services; Spire/Wait has
--                           `WaitForServerIP`, over the list of the events that its `select` takes
--   Commands                cmd/cofidectl/cmd: the commands on policies, bindings, federations and
--                           clusters, Commands/Overrides (trustzone/helm/helm.go), and
--                           Commands/Rollout (up.go, down.go); Commands/Federations/Health has
--                           `checkFederationStatus` and the loop of `federation list`
--   Examples                small configurations, at which the theorems are applied
--
-- A method is a function from the state to a result and a state: what was changed before an error
-- stays changed. Errors are constructors for the kinds of messages; a panic is a result of its own.
-- Objects are values: the data source copies the messages that it takes and returns, so no caller
-- shares one with it. `update_trust_zone` and the like read and replace one element by its place in
-- the slice. A Go map is the list of its entries. All loops run over finite slices and maps, so they
-- are structural recursion and there is no fuel.
--
-- A deployment is an action on the messages that it has sent and the world. Its goroutine is run to its
-- end, and a channel is the list of its messages. The trust zones that a deployment writes to are
-- shared by the clusters in them: a pair of a zone and a cluster carries the number of the zone's
-- object, and the zones that were written to are kept under their numbers. The maps that
-- `GenerateValues` writes to in place are rebuilt from the map that was changed outwards.
--
-- Parameters: protobuf's `Clone` and `Equal`, protoyaml, Cue, the file system, the UUID library,
-- go-spiffe, go-plugin, custom plugins, the Helm SDK and its file of repositories, the SPIRE server
-- API, the generated gRPC stubs and the broker between plugins, the parsers of URLs and of Kubernetes
-- label selectors, `structpb`, the environment variable HELM_REPO_PATH, the text of an error, for the
-- commands that delete the answers of `IsClusterDeployed`, and for the health of a federation what
-- Helm and the SPIRE server answer for a cluster.
-- Hypotheses on them state their documentation: a clone is an equal copy at another address
-- (IsProtoLib), an encoded message decodes to itself (IsCodec), a written file is read back
-- (IsFileSystem), a new UUID is unused (AllFresh), gRPC carries requests and responses, and an error
-- as a status (Delivers, Carries), and Helm keeps the history of its releases (KeepsReleases). The
-- theorems on the messages of a deployment suppose that no error has the empty text.
--
-- Not modelled: pkg/kube, internal/pkg/workload and the rest of pkg/spire, which read what Kubernetes and
-- the SPIRE server answer; the commands that only print (workload, version, the other lists and the statuses), and the
-- tables, flags and wiring of the others; that merging custom Helm values may write to the caller's
-- map; the cancellation of a deployment; the start of the broker's server and the registration with
-- go-plugin; the log level of the plugin manager; concurrent use of one data source.
pub mod Common
pub mod Values
pub mod Config
pub mod Proto
pub mod DataSource
pub mod Local
pub mod TrustZone
pub mod Plugins
pub mod Helm
pub mod Spire
pub mod Provision
pub mod Commands
pub mod Examples
