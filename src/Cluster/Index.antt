-- ===== src/Cluster/Index.antt =====
-- The pod indices that the controller computes, all in `int32`, and the names made of them. A stateful
-- set's pods are numbered in groups of one master and its replicas; the last group is the standby's.
pub mod Bounds
use redis_foxtrot_autoscaler.Prelude.{String, ◌^^◌}
use redis_foxtrot_autoscaler.Prelude.Int32.{Int32, add32, sub32, mul32}
use redis_foxtrot_autoscaler.Prelude.Decimal.{format}
use redis_foxtrot_autoscaler.Cluster.{RedisCluster, RedisClusterSpec}

-- `fmt.Sprintf("%s-%d", cluster.Name, index)`
unfoldable pub pod_name : String → Int32 → String
pod_name name index = name ^^ ("-" ^^ format index)

-- `1 + cluster.Spec.ReplicasPerMaster`
abbrev pub group_size : RedisClusterSpec → Int32
group_size s = add32 1 s.replicas_per_master

-- `(cluster.Spec.Masters + 1) * (1 + cluster.Spec.ReplicasPerMaster)`
unfoldable pub total_replicas : RedisClusterSpec → Int32
total_replicas s = mul32 (add32 s.masters 1) (group_size s)

-- `cluster.Spec.Masters * (1 + cluster.Spec.ReplicasPerMaster)`
unfoldable pub standby_index : RedisClusterSpec → Int32
standby_index s = mul32 s.masters (group_size s)

-- `(cluster.Spec.Masters - 1) * (1 + cluster.Spec.ReplicasPerMaster)`
unfoldable pub last_master_index : RedisClusterSpec → Int32
last_master_index s = mul32 (sub32 s.masters 1) (group_size s)

unfoldable pub standby_pod_name : RedisCluster → String
standby_pod_name c = pod_name c.name (standby_index c.spec)

unfoldable pub last_master_name : RedisCluster → String
last_master_name c = pod_name c.name (last_master_index c.spec)
