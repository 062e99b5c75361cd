-- ===== src/Lib.antt =====
-- The cluster registry: a registry of Kubernetes clusters, kept in a DynamoDB table.
--
-- A client controller on every cluster (pkg/client) sends the Cluster resource to an SQS queue; the
-- API server (cmd/apiserver, pkg/apiserver) reads the queue (pkg/sqs), writes the clusters to the
-- table (pkg/database), and answers HTTP requests from it to callers it authenticates (pkg/auth);
-- the client's webhook (pkg/client/webhook) tags the clusters as alerts come and go; the sync
-- manager (pkg/sync) builds partial clusters from other resources of a management cluster.
--
-- Which file models which part:
--   Registry/Cluster: the Cluster resource of pkg/api/registry/v1; a struct is a record with the same
--     fields, `ClusterSpec.ServiceMetadata` is the field `service_metadata`.
--   Database/Api: what pkg/database calls, as parameters (the DynamoDB client, its expression
--     builder, metrics, time formats), and its structs.
--   Database/Store: `GetCluster`, `PutCluster`, `DeleteCluster` and `Status` of
--     pkg/database/database.go; Database/Store/Table has the laws asked of the client.
--   Database/Filter: pkg/database/filter.go and the filter of `ListClusters`; Database/Filter/Meaning
--     has the laws asked of the expression builder.
--   Database/Listing: `ListClusters` and `ListClustersWithFilter`; Database/Listing/Service: the
--     operations with a service.
--   Events: pkg/sqs/event.go, the event handlers and the callback of cmd/apiserver/apiserver.go.
--   Queue: pkg/sqs/sqs.go and pkg/apiserver/web/readyz.go. `Poll` is a step relation over the
--     phases of its loop, with the messages whose handlers run.
--   Kubernetes: how a read of an object and a reconciliation end.
--   ClusterController: pkg/client/controllers/cluster_controller.go; ClusterController/Messages has
--     the way of its message through the queue to the handler of the API server.
--   MetadataWatcher: pkg/client/controllers/servicemetadatawatcher_controller.go. MetadataWatcher/Path
--     is `parsePath`, MetadataWatcher/Fields is `getNestedString`, MetadataWatcher/Resource the
--     resource, MetadataWatcher/Watcher the reconciliation, and MetadataWatcher/Mapping the requests
--     for changed objects.
--   SyncManager: pkg/sync and pkg/api/registry/v1/merge.go. SyncManager/Objects and
--     SyncManager/Handlers are pkg/sync/parser/handler, SyncManager/Parser is
--     pkg/sync/parser/parser.go, SyncManager/Controller is pkg/sync/manager/controller.go with the
--     ClusterSync resource of pkg/api/registry/v1alpha1, SyncManager/Sending the messages that it
--     sends, and SyncManager/Requests the requests for changed objects.
--   Settings: pkg/config/config.go with the queues that the processes make of it; Settings/Kinds: the
--     kinds that cmd/client/client.go and cmd/sync/manager/manager.go watch and parse;
--     Settings/Options and Settings/Files: the configuration files of pkg/api/config/v1.
--   Cache: pkg/apiserver/web/cache.go.
--   Webhook: pkg/client/webhook; Webhook/Delivery has the laws asked of the Kubernetes client.
--   Http: what is used of a request, and the answers; a handler is a function of a request and the
--     world, a middleware one of handlers.
--   Auth: pkg/auth/auth.go.
--   Api: pkg/apiserver. Api/Texts, Api/Names and Api/Queries are the regular expressions of
--     web/encoding.go and models/filter.go as matchers; Api/Reads, Api/Patches and Api/Responses are
--     the handlers of web/handler/v1 and web/handler/v2, Api/Routes the routes that `Register`
--     mounts, and Api/Handlers the handlers that `NewHandler` of the second version gives them.
--   Monitoring: pkg/monitoring/apiserver. Processes: the `main` functions of cmd, with `NewSQS` of
--     pkg/sqs/sqs.go and `NewAuthenticator` of pkg/auth/auth.go; an error that ends a process is
--     `exited`, a panic `crashed`.
--   Slt: test/slt, the service level tests: Slt/Requests is helpers and checks/request, Slt/Update
--     checks/update, Slt/Checks checks/checks.go.
--   Prelude: shared types and lemmas. Tests: a table in memory, a cluster in memory and others that
--     meet the laws, and the theorems at concrete inputs.
--
-- How code becomes definitions. A Go function that returns a value and an error gives a `Result`,
-- whose error is its message; one that calls a service also takes and returns the world, a type `W`
-- of the caller's choice (`Act`); where the code can panic the result is an `Outcome`. `int` is a
-- 64-bit integer whose sums and products wrap. A map is the list of its entries in the order of a
-- `range`. Log lines and measured durations are left out. The loop over the pages of a query takes
-- fuel, one unit for a page, and with fuel for every page the service has it is enough. The loop of
-- the end-to-end test takes one unit more than it has tries, which is enough; that of `readToken`
-- takes one for each second it waits. No other definition takes fuel but `decimal`, whose fuel is
-- above the number it prints. A path of `getNestedString` is walked by recursion on its keys.
--
-- Not modelled: the registration of the controllers with the controller runtime and that of the
-- metrics with their library, the metrics of the controllers, the settings of the web framework but
-- those of its rate limiter, the handlers of the documentation and of the exposed metrics, the
-- clients of other clusters, the endless loops of the service level tests, performance tests and
-- local helpers, generated code, and the libraries that the code calls. A reconciliation of the
-- sync manager runs alone, although the code runs ten at once on one buffer. An increment and a
-- decrement of the queue's count of handlers are each a read and a write, which may overlap in the
-- runs of the loop. A read of the database may be late, as the code calls it: a theorem that needs
-- one to see the last write says so.
mod Prelude
pub mod Registry
pub mod Database
pub mod Events
pub mod Webhook
pub mod Http
pub mod Auth
pub mod Api
pub mod Queue
pub mod Kubernetes
pub mod ClusterController
pub mod SyncManager
pub mod MetadataWatcher
pub mod Settings
pub mod Cache
pub mod Slt
pub mod Monitoring
pub mod Processes
mod Tests
