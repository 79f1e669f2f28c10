-- ===== src/Jobs.antt =====
-- The jobs that the controller builds: `reshardJobForRedisCluster` (internal/controller/upscale.go),
-- `drainJobForRedisCluster` and `cleanupStandbyJobForRedisCluster` (downscale.go),
-- `joinNodesJobForRedisCluster` (join_nodes_job.go); and `getLabels` (rediscluster_controller.go).
pub mod Bootstrap
use redis_foxtrot_autoscaler.Prelude.{
  Bool, not, ◌&&◌, Option, none, some, List, [], ◌∷◌, String, ◌^^◌, if◌then◌else◌,
}
use redis_foxtrot_autoscaler.Prelude.Int32.{Int32}
use redis_foxtrot_autoscaler.Prelude.Decimal.{format}
use redis_foxtrot_autoscaler.Cluster.{RedisCluster, Labels}
use redis_foxtrot_autoscaler.Cluster.Spec.{is_empty}
use redis_foxtrot_autoscaler.Cluster.Index.{standby_index, last_master_index}
use redis_foxtrot_autoscaler.Kube.{
  Job, Script, drain_script, cleanup_standby_script, reshard_script, join_nodes_command, never,
}

unfoldable pub get_labels : RedisCluster → Labels
get_labels c =
    if c.spec.existing_cluster && not (is_empty c.spec.pod_selector)
    then c.spec.pod_selector
    else ("app", "redis-cluster") ∷ ("cluster", c.name) ∷ ("component", "redis") ∷ []

abbrev pub reshard_name : RedisCluster → String
reshard_name c = c.name ^^ "-reshard"

abbrev pub drain_name : RedisCluster → String
drain_name c = c.name ^^ "-drain"

abbrev pub cleanup_name : RedisCluster → String
cleanup_name c = c.name ^^ "-cleanup-standby"

abbrev pub join_name : RedisCluster → String
join_name c = c.name ^^ "-join-nodes"

abbrev pub bootstrap_name : RedisCluster → String
bootstrap_name c = c.name ^^ "-bootstrap"

abbrev pub headless_name : RedisCluster → String
headless_name c = c.name ^^ "-headless"

-- `fmt.Sprintf("%s-0.%s.%s.svc.cluster.local", ...)`
abbrev any_pod_host : RedisCluster → String
any_pod_host c =
    c.name ^^ ("-0." ^^ (headless_name c ^^ ("." ^^ (c.namespace ^^ ".svc.cluster.local"))))

abbrev entrypoint : RedisCluster → String
entrypoint c = any_pod_host c ^^ ":6379"

abbrev pub redis_image : RedisCluster → String
redis_image c = "redis:" ^^ c.spec.redis_version

-- What the four jobs of this file share: `sh -c` with a script, never restarted.
abbrev shell_job :
    RedisCluster → String → Int32 → Int32 → String → Script → List (String × String) → Job
shell_job c name timeout backoff container script env = record {
  name = name;
  namespace = c.namespace;
  labels = get_labels c;
  active_deadline_seconds = some timeout;
  backoff_limit = backoff;
  restart_policy = never;
  container = container;
  image = redis_image c;
  command = "sh" ∷ "-c" ∷ [];
  script = script;
  env = env;
  owner = none;
}

unfoldable pub reshard_job : RedisCluster → String → String → Job
reshard_job c overloaded_pod standby_pod =
    shell_job c (reshard_name c) c.spec.reshard_timeout_seconds 0 "smart-reshard" reshard_script (
      ("ANY_POD_HOST", any_pod_host c)
      ∷ ("ANY_POD_PORT", "6379")
      ∷ ("ANY_POD_ENTRYPOINT", entrypoint c)
      ∷ ("OVERLOADED_POD", overloaded_pod)
      ∷ ("STANDBY_POD", standby_pod)
      ∷ ("CLUSTER_NAME", c.name)
      ∷ ("SERVICE_NAME", headless_name c)
      ∷ ("NAMESPACE", c.namespace)
      ∷ [])

unfoldable pub drain_job : RedisCluster → String → String → String → Job
drain_job c pod_to_drain dest_pod1 dest_pod2 =
    shell_job c (drain_name c) c.spec.reshard_timeout_seconds 0 "smart-drain" drain_script (
      ("POD_TO_DRAIN", pod_to_drain)
      ∷ ("DEST_POD_1", dest_pod1)
      ∷ ("DEST_POD_2", dest_pod2)
      ∷ ("STANDBY_POD", c.status.standby_pod)
      ∷ ("SERVICE_NAME", headless_name c)
      ∷ ("NAMESPACE", c.namespace)
      ∷ ("ENTRYPOINT_HOST", any_pod_host c)
      ∷ ("ENTRYPOINT_WITH_PORT", entrypoint c)
      ∷ [])

-- The two pod names that the caller passes are not used by the body.
unfoldable pub cleanup_standby_job : RedisCluster → String → String → Job
cleanup_standby_job c standby_pod drained_pod =
    shell_job c (cleanup_name c) 300 3 "cleanup-standby" cleanup_standby_script (
      ("CLUSTER_NAME", c.name)
      ∷ ("SERVICE_NAME", headless_name c)
      ∷ ("NAMESPACE", c.namespace)
      ∷ ("ENTRYPOINT_HOST", any_pod_host c)
      ∷ ("ENTRYPOINT_WITH_PORT", entrypoint c)
      ∷ ("REPLICAS_PER_MASTER", format c.spec.replicas_per_master)
      ∷ ("NEW_STANDBY_INDEX", format (last_master_index c.spec))
      ∷ ("OLD_STANDBY_INDEX", format (standby_index c.spec))
      ∷ [])

unfoldable pub join_nodes_job : RedisCluster → Job
join_nodes_job c = shell_job c (join_name c) 300 3 "join-nodes" join_nodes_command (
    ("ANY_POD_HOST", any_pod_host c)
    ∷ ("ANY_POD_PORT", "6379")
    ∷ ("ANY_POD_ENTRYPOINT", entrypoint c)
    ∷ ("CLUSTER_NAME", c.name)
    ∷ ("SERVICE_NAME", headless_name c)
    ∷ ("NAMESPACE", c.namespace)
    ∷ ("NEW_STANDBY_INDEX", format (standby_index c.spec))
    ∷ ("REPLICAS_PER_MASTER", format c.spec.replicas_per_master)
    ∷ [])
