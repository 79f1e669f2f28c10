-- ===== src/Examples/World.antt =====
-- A concrete cluster of two masters without replicas, and a platform on which it is healthy: the
-- numbers are natural numbers, of which an `int32` is the flipped pattern, and the server answers every
-- write with the object that is sent.
use redis_foxtrot_autoscaler.Prelude.{
  ℕ, ◌+◌, ◌%◌, ◌≡◌, refl, arith, true, false, none, some, [], ◌∷◌, String, ltb,
}
use redis_foxtrot_autoscaler.Prelude.Int32.{half, modulus}
use redis_foxtrot_autoscaler.Errors.{running, not_found}
use redis_foxtrot_autoscaler.Cluster.{RedisCluster, RedisClusterSpec, RedisClusterStatus}
use redis_foxtrot_autoscaler.Kube.{
  Pod, Platform, PodLoad, Vector, FloatLaws, SortLaws, UpdateLaws, State, ok, err,
}
use redis_foxtrot_autoscaler.Examples.Sort.{
  insertion_sort, insertion_sort-perm, insertion_sort-Sorted,
}

abbrev pub spec : RedisClusterSpec
spec = record {
  masters = 2;
  min_masters = 1;
  replicas_per_master = 0;
  redis_version = "7.2";
  auto_scale_enabled = true;
  cpu_threshold = 70;
  cpu_threshold_low = 20;
  memory_threshold = 70;
  memory_threshold_low = 30;
  reshard_timeout_seconds = 600;
  scale_cooldown_seconds = 60;
  prometheus_url = "http://prometheus";
  metrics_query_interval = 15;
  existing_cluster = false;
  pod_selector = [];
  service_name = "redis-headless";
  manage_stateful_set = true;
  stateful_set_name = "redis";
}

abbrev pub status : RedisClusterStatus
status = record {
  current_masters = 2;
  current_replicas = 0;
  initialized = true;
  is_resharding = false;
  is_provisioning_standby = false;
  is_draining = false;
  last_scale_time = none;
  standby_pod = "redis-2";
  overloaded_pod = "";
  pod_to_drain = "";
  drain_dest_pod1 = "";
  drain_dest_pod2 = "";
}

abbrev pub cluster : RedisCluster
cluster = record { name = "redis"; namespace = "default"; spec = spec; status = status }

abbrev pub start : State
start = record { cluster = cluster; calls = [] }

abbrev pub pod : String → Pod
pod name = record { name = name; phase = running; container_ready = true ∷ []; conditions = [] }

-- `float64(n)`
abbrev pub number : ℕ → ℕ
number n = (n + half) % modulus

abbrev pub load : String → ℕ → ℕ → PodLoad ℕ
load name cpu memory = record {
  pod_name = name;
  cpu_usage = number cpu;
  memory_usage = number memory;
}

abbrev usage : Vector ℕ
usage = ("redis-0", number 80) ∷ ("redis-1", number 10) ∷ []

abbrev pub platform : Platform ℕ
platform = record {
  less = ltb;
  of_int32 = number;
  sort_slice = insertion_sort;
  range_order = λ m. m;
  now = λ h. 0;
  read_cluster = λ h k. ok cluster;
  read_job = λ h k. err not_found;
  read_stateful_set = λ h k. ok (record { replicas = 3; ready_replicas = 3 });
  read_pod = λ h k. ok (pod k.name);
  read_service = λ h k. err not_found;
  read_pods = λ h ns ls. ok (pod "redis-0" ∷ pod "redis-1" ∷ pod "redis-2" ∷ []);
  read_resource = λ h x. err not_found;
  write_cluster = λ h c. ok c;
  write_status = λ h c. ok c;
  write_job = λ h j. ok tt;
  write_resource = λ h x. ok tt;
  remove_job = λ h k. ok tt;
  set_owner = λ c name. none;
  new_client = λ url. none;
  query = λ h text. ok (some usage);
}

pub updates : UpdateLaws platform
updates = record { cluster_kept = λ h c c' e. cc; status_kept = λ h c c' e. cc }

pub floats : FloatLaws platform
floats = record {
  nan = λ x. false;
  irreflexive = λ a. ground arith;
  transitive = λ a b c h k. ground arith;
  negative = λ a b c n h k. ground arith;
  nan_below = λ a b h. cc;
  exact = λ a b. refl;
}

pub no_nan : (x : ℕ) → floats.nan x ≡ false
unfolding floats
no_nan x = refl

pub sorts : SortLaws platform
sorts = record {
  rearranges = λ less ls. insertion_sort-perm less ls;
  ascending = λ less ls asym neg. insertion_sort-Sorted less ls asym neg;
}
