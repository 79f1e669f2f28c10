-- ===== src/Decision.antt =====
-- internal/controller/autoscaler.go: `checkScaleUpCondition` and `checkScaleDownCondition`.
pub mod Champion
pub mod ScaleUp
pub mod ScaleDown
use redis_foxtrot_autoscaler.Prelude.{
  ℕ, ◌+◌, Bool, true, false, ◌&&◌, ◌||◌, Option, none, some, List, [], ◌∷◌, String, leb,
  if◌then◌else◌,
}
use redis_foxtrot_autoscaler.Prelude.Int32.{Int32, le32}
use redis_foxtrot_autoscaler.Prelude.Text.{str_eq}
use redis_foxtrot_autoscaler.Cluster.{RedisClusterSpec}
use redis_foxtrot_autoscaler.Kube.{Platform, PodLoad}

-- The texts of the log, with the values that are printed into them.
pub data Reason (F : Type 0) : Type 0 where
  cpu_and_memory cpu_only memory_only : F → F → Reason F
  underutilized : ℕ → F → F → Reason F

module _ {F : Type 0} (p : Platform F) where
  -- `PodLoad{}`
  abbrev pub no_load : PodLoad F
  no_load = record { pod_name = ""; cpu_usage = p.of_int32 0; memory_usage = p.of_int32 0 }

module _ {F : Type 0} (p : Platform F) (spec : RedisClusterSpec) where
  abbrev pub cpu_high : PodLoad F → Bool
  cpu_high l = p.less (p.of_int32 spec.cpu_threshold) l.cpu_usage

  abbrev pub memory_high : PodLoad F → Bool
  memory_high l = p.less (p.of_int32 spec.memory_threshold) l.memory_usage

  unfoldable pub is_overloaded : PodLoad F → Bool
  is_overloaded l = cpu_high l || memory_high l

  -- The body of the loop, on `triggered` and `triggerPod`.
  unfoldable pub watch : PodLoad F → Bool × PodLoad F → Bool × PodLoad F
  watch l (triggered, t) =
      if is_overloaded l
      then (true, if str_eq t.pod_name "" || p.less t.memory_usage l.memory_usage then l else t)
      else (triggered, t)

  unfoldable pub watch_all : List (PodLoad F) → Bool × PodLoad F → Bool × PodLoad F
  watch_all [] acc = acc
  watch_all (l ∷ ls) acc = watch_all ls (watch l acc)

  unfoldable pub reason_of : PodLoad F → Reason F
  reason_of t =
      if cpu_high t && memory_high t
      then cpu_and_memory t.cpu_usage t.memory_usage
      else if cpu_high t
      then cpu_only t.cpu_usage t.memory_usage
      else memory_only t.cpu_usage t.memory_usage

  abbrev pub report : Bool × PodLoad F → Option (PodLoad F × Reason F)
  report (false, t) = none
  report (true, t) = some (t, reason_of t)

  -- `none` is `false, PodLoad{}, ""`.
  unfoldable pub check_scale_up : List (PodLoad F) → Option (PodLoad F × Reason F)
  check_scale_up ls = report (watch_all ls (false, no_load p))

  unfoldable pub is_underutilized : PodLoad F → Bool
  is_underutilized l =
      p.less l.cpu_usage (p.of_int32 spec.cpu_threshold_low)
      && p.less l.memory_usage (p.of_int32 spec.memory_threshold_low)

  unfoldable pub count_underutilized : List (PodLoad F) → ℕ → ℕ
  count_underutilized [] n = n
  count_underutilized (l ∷ ls) n = count_underutilized ls (if is_underutilized l then n + 1 else n)

  -- `none` is `false, ""`.
  unfoldable pub check_scale_down : List (PodLoad F) → Option (Reason F)
  check_scale_down ls =
      if le32 spec.masters spec.min_masters
      then none
      else let n = count_underutilized ls 0 in
        if leb 2 n
        then some (
            underutilized n (p.of_int32 spec.cpu_threshold_low)
              (p.of_int32 spec.memory_threshold_low))
        else none
