-- ===== src/Jobs/Bootstrap.antt =====
-- internal/controller/rediscluster_controller.go: `bootstrapJobForRedisCluster`.
pub mod Hosts
use redis_foxtrot_autoscaler.Prelude.{
  ℕ, zero, suc, ◌+◌, Option, none, some, List, [], ◌∷◌, String, ◌^^◌, if◌then◌else◌, ltb,
}
use redis_foxtrot_autoscaler.Prelude.Int32.{Int32, add32, half}
use redis_foxtrot_autoscaler.Prelude.Decimal.{format}
use redis_foxtrot_autoscaler.Cluster.{RedisCluster}
use redis_foxtrot_autoscaler.Cluster.Index.{standby_index}
use redis_foxtrot_autoscaler.Kube.{Job, bootstrap_command, on_failure}
use redis_foxtrot_autoscaler.Jobs.{bootstrap_name, headless_name, redis_image, get_labels}

-- `fmt.Sprintf("%s-%d.%s.%s.svc.cluster.local:6379", ...)`
unfoldable pub pod_address : RedisCluster → Int32 → String
pod_address c i =
    c.name
    ^^ ("-"
        ^^ (format i
            ^^ ("." ^^ (headless_name c ^^ ("." ^^ (c.namespace ^^ ".svc.cluster.local:6379"))))))

-- The loop `for i := int32(0); i < n; i++`, on the rounds left and the index.
unfoldable pub addresses : RedisCluster → ℕ → Int32 → List String
addresses c zero i = []
addresses c (suc rounds) i = pod_address c i ∷ addresses c rounds (i + 1)

-- A negative count makes no round.
abbrev pub rounds_of : Int32 → ℕ
rounds_of n = if ltb n half then n else 0

-- `strings.Join(hosts, " ")`
unfoldable pub join_spaces : List String → String
join_spaces [] = ""
join_spaces (s ∷ []) = s
join_spaces (s ∷ t ∷ ts) = s ^^ (" " ^^ join_spaces (t ∷ ts))

-- `activeHosts[0]`; without a host the Go code panics, and `none` stands for that.
abbrev pub first : List String → Option String
first [] = none
first (s ∷ ss) = some s

abbrev pub job_with : RedisCluster → Option String → Option Job
job_with c none = none
job_with c (some entry) = some (record {
  name = bootstrap_name c;
  namespace = c.namespace;
  labels = get_labels c;
  active_deadline_seconds = none;
  backoff_limit = 0;
  restart_policy = on_failure;
  container = "bootstrap";
  image = redis_image c;
  command = "sh" ∷ "-c" ∷ [];
  script = bootstrap_command (record {
    active_masters = c.spec.masters;
    active_hosts = join_spaces (addresses c (rounds_of (standby_index c.spec)) 0);
    replicas_per_master = c.spec.replicas_per_master;
    entrypoint = entry;
    standby_master = pod_address c (standby_index c.spec);
    standby_replica = pod_address c (add32 (standby_index c.spec) 1);
  });
  env = [];
  owner = none;
})

unfoldable pub bootstrap_job : RedisCluster → Option Job
bootstrap_job c = job_with c (first (addresses c (rounds_of (standby_index c.spec)) 0))
