-- ===== src/Cluster.antt =====
-- api/v1/rediscluster_types.go: the RedisCluster resource. Strings are native texts, an `int32` is a
-- bit pattern, the map of labels is an association list, and `LastScaleTime` is in nanoseconds.
pub mod Spec
pub mod Index
use redis_foxtrot_autoscaler.Prelude.{ℕ, Bool, Option, List, String}
use redis_foxtrot_autoscaler.Prelude.Int32.{Int32}

abbrev pub Labels : Type 0
Labels = List (String × String)

-- `RedisClusterSpec`.
pub record RedisClusterSpec : Type 0 where
  pub masters : Int32
  pub min_masters : Int32
  pub replicas_per_master : Int32
  pub redis_version : String
  pub auto_scale_enabled : Bool
  pub cpu_threshold : Int32
  pub cpu_threshold_low : Int32
  pub memory_threshold : Int32
  pub memory_threshold_low : Int32
  pub reshard_timeout_seconds : Int32
  pub scale_cooldown_seconds : Int32
  pub prometheus_url : String
  pub metrics_query_interval : Int32
  pub existing_cluster : Bool
  pub pod_selector : Labels
  pub service_name : String
  pub manage_stateful_set : Bool
  pub stateful_set_name : String

-- `RedisClusterStatus`.
pub record RedisClusterStatus : Type 0 where
  pub current_masters : Int32
  pub current_replicas : Int32
  pub initialized : Bool
  pub is_resharding : Bool
  pub is_provisioning_standby : Bool
  pub is_draining : Bool
  pub last_scale_time : Option ℕ
  pub standby_pod : String
  pub overloaded_pod : String
  pub pod_to_drain : String
  pub drain_dest_pod1 : String
  pub drain_dest_pod2 : String

-- `RedisCluster`, of whose metadata the controller reads the name and the namespace.
pub record RedisCluster : Type 0 where
  pub name : String
  pub namespace : String
  pub spec : RedisClusterSpec
  pub status : RedisClusterStatus
