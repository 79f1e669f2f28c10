-- ===== src/Trigger.antt =====
-- internal/controller/autoscaler.go: `triggerScaleUp` and `triggerScaleDown`.
pub mod Index
pub mod Pairs
pub mod Destinations
pub mod Effects
use redis_foxtrot_autoscaler.Prelude.{
  ℕ, ◌+◌, ◌-◌, ◌*◌, ◌%◌, Bool, true, false, not, ◌&&◌, Option, none, some, List, [], ◌∷◌, String,
  ◌^^◌, ltb, ◌==◌, select, length, if◌then◌else◌,
}
use redis_foxtrot_autoscaler.Prelude.Int.{ℤ, pos, abs}
use redis_foxtrot_autoscaler.Prelude.Int32.{Int32, half, modulus}
use redis_foxtrot_autoscaler.Prelude.Text.{str_eq, strip_prefix}
use redis_foxtrot_autoscaler.Prelude.Decimal.{scan_int}
use redis_foxtrot_autoscaler.Cluster.{RedisCluster, RedisClusterStatus}
use redis_foxtrot_autoscaler.Cluster.Index.{last_master_name}
use redis_foxtrot_autoscaler.Kube.{
  Action, pure, ◌>>=◌, ◌>>◌, current, modify_status, Outcome, after, fail_api, second, Platform,
  PodLoad, put_status, or_else,
}

-- `|1 + int(replicasPerMaster)|`, in 64 bits. It is 0 for -1, where the Go code panics.
abbrev pub group_width : Int32 → ℕ
group_width r = if ltb r half then r + 1 else modulus - r - 1

abbrev pub scan_rest : Option String → Option ℤ
scan_rest none = none
scan_rest (some s) = scan_int s

-- `fmt.Sscanf(podName, name+"-%d", &podIndex)`, for a name without white space or a percent sign, as
-- the names of Kubernetes are.
unfoldable pub scan_index : String → String → Option ℤ
scan_index name pod = scan_rest (strip_prefix (name ^^ "-") pod)

-- `podIndex % (1 + replicasPerMaster) == 0`, which does not depend on the signs.
abbrev pub divides : ℕ → Option ℤ → Bool
divides width none = false
divides width (some i) = abs i % width == 0

unfoldable pub is_master_load : {F : Type 0} → RedisCluster → PodLoad F → Bool
is_master_load c l = divides (group_width c.spec.replicas_per_master) (scan_index c.name l.pod_name)

-- The two destinations, from the loads in rising order of memory usage.
unfoldable pub destinations : {F : Type 0} → String → List (PodLoad F) → String × String
destinations highest [] = ("", "")
destinations highest (a ∷ []) = (if str_eq highest a.pod_name then "" else a.pod_name, "")
destinations highest (a ∷ b ∷ ls) =
    if not (str_eq highest a.pod_name) && not (str_eq highest b.pod_name)
    then (a.pod_name, b.pod_name)
    else if str_eq highest a.pod_name
    then (b.pod_name, "")
    else (a.pod_name, "")

abbrev pub start_resharding : String → RedisClusterStatus → RedisClusterStatus
start_resharding pod st = record st { is_resharding = true; overloaded_pod = pod }

abbrev pub start_draining : String → String × String → RedisClusterStatus → RedisClusterStatus
start_draining pod (dest1, dest2) st = record st {
  is_draining = true;
  pod_to_drain = pod;
  drain_dest_pod1 = dest1;
  drain_dest_pod2 = dest2;
}

module _ {F : Type 0} (p : Platform F) where
  unfoldable pub trigger_scale_up : PodLoad F → Action Outcome
  trigger_scale_up t = do
    modify_status (start_resharding t.pod_name)
    or_else (put_status p) fail_api (pure (after (pos second)))

  -- The loads of the masters, sorted by memory usage.
  unfoldable pub sorted_masters : RedisCluster → List (PodLoad F) → List (PodLoad F)
  sorted_masters c ls =
      p.sort_slice (λ a b. p.less a.memory_usage b.memory_usage) (select (is_master_load c) ls)

  unfoldable pub trigger_scale_down : List (PodLoad F) → Action Outcome
  trigger_scale_down ls = do
    c ← current
    if ltb (length (select (is_master_load c) ls)) 2 then pure (after (pos (10 * second))) else do
      modify_status (
          start_draining (last_master_name c)
            (destinations (last_master_name c) (sorted_masters c ls)))
      or_else (put_status p) fail_api (pure (after (pos second)))
