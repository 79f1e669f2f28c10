-- ===== src/Cluster/Spec.antt =====
-- api/v1/rediscluster_types.go: `SetDefaults` and `ValidateSpec`.
pub mod Defaults
use redis_foxtrot_autoscaler.Prelude.{
  Bool, true, false, ◌&&◌, Option, none, some, [], ◌∷◌, String, ◌^^◌, ◌==◌, if◌then◌else◌,
}
use redis_foxtrot_autoscaler.Prelude.Int32.{Int32, le32, lt32}
use redis_foxtrot_autoscaler.Prelude.Text.{str_eq}
use redis_foxtrot_autoscaler.Errors.{
  Error, cpu_thresholds, memory_thresholds, masters_below_minimum, pod_selector_required,
  service_name_required,
}
use redis_foxtrot_autoscaler.Cluster.{RedisCluster, RedisClusterSpec, Labels}

abbrev or_int : Int32 → Int32 → Int32
or_int v default = if v == 0 then default else v

abbrev or_text : String → String → String
or_text v default = if str_eq v "" then default else v

-- The fields that `SetDefaults` sets, one conditional assignment each.
unfoldable pub set_spec_defaults : String → RedisClusterSpec → RedisClusterSpec
set_spec_defaults name s = record s {
  redis_version = or_text s.redis_version "7.2";
  min_masters = or_int s.min_masters 3;
  memory_threshold = or_int s.memory_threshold 70;
  memory_threshold_low = or_int s.memory_threshold_low 30;
  cpu_threshold_low = or_int s.cpu_threshold_low 20;
  reshard_timeout_seconds = or_int s.reshard_timeout_seconds 600;
  scale_cooldown_seconds = or_int s.scale_cooldown_seconds 60;
  prometheus_url = or_text s.prometheus_url "http://prometheus-operated.monitoring.svc:9090";
  metrics_query_interval = or_int s.metrics_query_interval 15;
  replicas_per_master = or_int s.replicas_per_master 1;
  service_name = or_text s.service_name (name ^^ "-headless");
  stateful_set_name = or_text s.stateful_set_name name;
}

unfoldable pub set_defaults : RedisCluster → RedisCluster
unfolding set_spec_defaults
set_defaults c = record c { spec = set_spec_defaults c.name c.spec }

abbrev pub is_empty : Labels → Bool
is_empty [] = true
is_empty (l ∷ ls) = false

-- `nil` is `none`.
unfoldable pub validate_spec : RedisClusterSpec → Option Error
validate_spec s =
    if le32 s.cpu_threshold s.cpu_threshold_low
    then some (cpu_thresholds s.cpu_threshold s.cpu_threshold_low)
    else if le32 s.memory_threshold s.memory_threshold_low
    then some (memory_thresholds s.memory_threshold s.memory_threshold_low)
    else if lt32 s.masters s.min_masters
    then some (masters_below_minimum s.masters s.min_masters)
    else if s.existing_cluster && is_empty s.pod_selector
    then some pod_selector_required
    else if s.existing_cluster && str_eq s.service_name ""
    then some service_name_required
    else none
