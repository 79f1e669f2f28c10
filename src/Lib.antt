-- ===== src/Lib.antt =====
-- The Redis cluster autoscaler: an operator that keeps a RedisCluster resource, the stateful set of its
-- pods, and the jobs that move hash slots between them.
--
-- A reconcile round (`Reconcile`) reads the resource, fills in defaults and validates it, writes the
-- infrastructure, follows the bootstrap, finds the standby, and then runs one round of the autoscaler.
-- The autoscaler is a state machine on the status: it drains, reshards, provisions a standby, or
-- monitors the metrics and decides whether to start one of these.
--
-- Files, and the code that they model:
--   Cluster, Cluster/Spec, Cluster/Index   api/v1/rediscluster_types.go: `RedisClusterSpec`,
--     `RedisClusterStatus`, `SetDefaults`, `ValidateSpec`, and the pod indices of the controller
--   Kube and its children   the controller's view of the API server, Prometheus and the clock
--   Jobs, Resources   the objects that internal/controller builds (`reshardJobForRedisCluster`,
--     `statefulSetForRedisCluster` and the other `...ForRedisCluster` methods, `getLabels`)
--   Infrastructure   rediscluster_controller.go: `reconcileInfrastructure`, `reconcileResource`
--   Bootstrap, Standby, Reconcile   rediscluster_controller.go: `handleBootstrap`,
--     `discoverRedisTopology`, `detectAndSetStandbyPod`, `Reconcile`
--   Health, Metrics, Decision, Trigger, Autoscaler   autoscaler.go: the health checks, the queries, the
--     two conditions, the two triggers, `monitorMetrics` and `handleAutoScaling`
--   Operator   cmd/main.go, and `SetupWithManager` of rediscluster_controller.go
--   RebalanceJob, Prometheus   internal/redis/reshard.go, internal/metrics/prometheus_helper.go: two
--     helpers that nothing calls
--   Reshard, Provision, Drain   upscale.go, provision_standby.go with join_nodes_job.go, downscale.go
--   Errors, Prelude   the errors as values, and the shared arithmetic, texts and lists
--   Examples   the theorems at a concrete cluster
-- A child module is about its parent's code and is named for what it shows of it.
-- Files without a path are in internal/controller.
--
-- A method is an action: it takes the object in memory and the calls made so far, and returns its
-- answer with both after it. What the server, Prometheus and the clock answer is any function of the
-- calls (`Platform`), so other writers between the calls are covered. `UpdateLaws`, `FloatLaws` and
-- `SortLaws` are what is documented of them and what some theorems rely on; Examples/World shows a
-- platform that has them. `Accepts` (Kube/Success) and `Refuses` (Kube/Refusal) are a server that takes
-- every update, and one that takes the specs only; `JobsStay` (Kube/Refusal) is a server that answers
-- the same for a job that has succeeded, until the job is deleted. What the server holds of the
-- resource (`held`, Kube/Held) is replayed from the calls and their answers: an update writes the spec
-- and a status update the status, since the status is a subresource. `Synced` says that the object in
-- memory is the one that the server holds; a later round reads that object (`reads_at`).
--
-- An `int32` is a bit pattern below 2 ^ 32 whose sums, differences and products wrap around. `%d` is
-- printed with ten digits of fuel, which 2 ^ 31 does not exceed. Durations are in nanoseconds.
--
-- `CreateReshardJob` polls on fuel: one unit for each time that `select` is reached, until the timeout's
-- channel is taken.
--
-- The whole operator is a history of rounds (Reconcile/History), each for some resource. Autoscaler/Cycle
-- puts the rounds of one operation together.
--
-- Not modelled: log texts, contexts and cancellation, the texts of wrapped errors (errors are
-- constructors), the shell scripts that the jobs run, the parsing of the command line and the options of
-- the logger in cmd/main.go, the generated deep copies and the registration of the group in api/v1.
pub mod Prelude
pub mod Errors
pub mod Cluster
pub mod Kube
pub mod Decision
pub mod Jobs
pub mod Resources
pub mod Infrastructure
pub mod Standby
pub mod Health
pub mod Reshard
pub mod Provision
pub mod Drain
pub mod Metrics
pub mod Trigger
pub mod Autoscaler
pub mod Bootstrap
pub mod Reconcile
pub mod Operator
pub mod RebalanceJob
pub mod Prometheus
pub mod Examples
