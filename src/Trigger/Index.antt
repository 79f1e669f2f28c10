-- ===== src/Trigger/Index.antt =====
-- The index that `triggerScaleDown` reads from a pod's name is the one that the name was made of.
use native.Mathlib.Nat.{add-zero, add_comm}
use text.Mathlib.TextLemmas.{append_assoc}
use redis_foxtrot_autoscaler.Prelude.{◌<◌, ◌%◌, ◌+◌, ◌≡◌, some, String, ◌^^◌, ◌==◌, lt→ltb}
use redis_foxtrot_autoscaler.Prelude.Int.{pos}
use redis_foxtrot_autoscaler.Prelude.Int32.{Int32, half}
use redis_foxtrot_autoscaler.Prelude.Text.{strip_prefix-append}
use redis_foxtrot_autoscaler.Prelude.Decimal.{format, scan_int-format}
use redis_foxtrot_autoscaler.Cluster.{RedisCluster}
use redis_foxtrot_autoscaler.Cluster.Index.{pod_name}
use redis_foxtrot_autoscaler.Kube.{PodLoad}
use redis_foxtrot_autoscaler.Trigger.{scan_index, is_master_load}

-- Reading the index from a pod's name gives back the index that the name was made of, if it is not
-- negative.
pub scan_index-pod_name :
    (name : String) (i : Int32) → i < half → scan_index name (pod_name name i) ≡ some (pos i)
unfolding scan_index pod_name
scan_index-pod_name name i h =
    rw (← append_assoc name "-" (format i), strip_prefix-append (name ^^ "-") (format i))
      (scan_int-format i h)

-- For replicas and an index that are not negative, a pod named after the index counts as a master
-- exactly when the index is a multiple of the group's size.
pub is_master_load_iff :
    {F : Type 0} (c : RedisCluster) (l : PodLoad F) (i : Int32)
    → i < half
    → c.spec.replicas_per_master < half
    → l.pod_name ≡ pod_name c.name i
    → is_master_load c l ≡ (i % (1 + c.spec.replicas_per_master) == 0)
unfolding is_master_load
is_master_load_iff c l i h r e = rw (
  e,
  scan_index-pod_name c.name i h,
  lt→ltb c.spec.replicas_per_master half r,
  add-zero i,
  add_comm c.spec.replicas_per_master 1,
)
