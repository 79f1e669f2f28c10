-- ===== src/Examples/Responds.antt =====
-- A healthy cluster under load, and the same one with little to do.
use redis_foxtrot_autoscaler.Prelude.{
  ℕ, ◌≡◌, refl, true, false, some, List, [], ◌∷◌, any, arith, length, select, ◌≤◌,
}
use redis_foxtrot_autoscaler.Prelude.Int.{pos}
use redis_foxtrot_autoscaler.Prelude.Text.{strip_prefix}
use redis_foxtrot_autoscaler.Prelude.Decimal.{
  format, digits, render, digit_char, scan_int, leading_digits, digit_value, value,
  number as number_of, positive, negative,
}
use redis_foxtrot_autoscaler.Cluster.Index.{
  total_replicas, standby_index, standby_pod_name, last_master_name, pod_name,
}
use redis_foxtrot_autoscaler.Kube.{Request, Platform, PodLoad, Vector, UpdateLaws, ok}
use redis_foxtrot_autoscaler.Standby.Finds.{IsUp}
use redis_foxtrot_autoscaler.Health.{
  passed, is_cluster_healthy_for_scaling, cooldown_at, all_ready, running_job,
}
use redis_foxtrot_autoscaler.Health.Complete.{IsReady, checked, ready_is_healthy}
use redis_foxtrot_autoscaler.Metrics.{
  query_pod_metrics, query_cpu_metrics, query_memory_metrics, collect, insert, lookup, join_metrics,
}
use redis_foxtrot_autoscaler.Decision.{
  Reason, is_overloaded, check_scale_up, check_scale_down, is_underutilized, count_underutilized,
}
use redis_foxtrot_autoscaler.Decision.ScaleUp.{is_some}
use redis_foxtrot_autoscaler.Trigger.Effects.{SavesStatus}
use redis_foxtrot_autoscaler.Trigger.{
  start_resharding, start_draining, destinations, sorted_masters, is_master_load, scan_index,
}
use redis_foxtrot_autoscaler.Autoscaler.{handle_auto_scaling}
use redis_foxtrot_autoscaler.Autoscaler.Machine.{phase}
use redis_foxtrot_autoscaler.Autoscaler.Responds.{
  Measures, measured, overload_starts_reshard, spare_pods_start_drain,
}
use redis_foxtrot_autoscaler.Examples.World.{
  platform, updates, start, cluster, status, spec, load, number, pod,
}

standby-IsUp : (h : List Request) → IsUp platform cluster h
standby-IsUp h = record { managed = refl; pod = pod _; found = refl; running = refl; ready = refl }

start-IsReady : IsReady platform cluster []
unfolding total_replicas cooldown_at all_ready standby_pod_name standby_index pod_name format digits
    render digit_char
start-IsReady = record {
  cooled = refl;
  pods = _;
  listing = refl;
  fits = omega arith;
  running = refl;
  serving = refl;
  standby = standby-IsUp _;
  known = refl;
  no_reshard = tt;
  no_drain = tt;
  unlocked = refl;
}

ready_is_healthy_example : is_cluster_healthy_for_scaling platform start ≡ (
  record { is_healthy = true; reason = passed; requeue_after = pos 0 },
  record start { calls = checked platform cluster [] },
)
ready_is_healthy_example = ready_is_healthy platform start start-IsReady

abbrev busy : List (PodLoad ℕ)
busy = load "redis-0" 80 80 ∷ load "redis-1" 10 10 ∷ []

start-Measures : Measures platform start busy
unfolding running_job query_pod_metrics query_cpu_metrics query_memory_metrics collect insert lookup
    join_metrics phase
start-Measures = record { ready = start-IsReady; monitors = refl; free = refl; loads = refl }

over : any (is_overloaded platform spec) busy ≡ true
unfolding is_overloaded
over = refl

overload_starts_reshard_example :
    (t : PodLoad ℕ) × (why : Reason ℕ) × (check_scale_up platform spec busy ≡ some (t, why))
    × SavesStatus
        (record start { calls = (measured platform start).calls })
        (start_resharding t.pod_name status)
        (handle_auto_scaling platform start).1
overload_starts_reshard_example =
    overload_starts_reshard platform updates start _ _ start-Measures over

-- The same cluster with little to do.
abbrev light : Vector ℕ
light = ("redis-0", number 5) ∷ ("redis-1", number 6) ∷ []

abbrev calm : Platform ℕ
calm = record platform { query = λ h text. ok (some light) }

calm_updates : UpdateLaws calm
calm_updates = record { cluster_kept = λ h c c' e. cc; status_kept = λ h c c' e. cc }

abbrev idle : List (PodLoad ℕ)
idle = load "redis-0" 5 5 ∷ load "redis-1" 6 6 ∷ []

calm-IsUp : (h : List Request) → IsUp calm cluster h
calm-IsUp h = record { managed = refl; pod = pod _; found = refl; running = refl; ready = refl }

calm-IsReady : IsReady calm cluster []
unfolding total_replicas cooldown_at all_ready standby_pod_name standby_index pod_name format digits
    render digit_char
calm-IsReady = record {
  cooled = refl;
  pods = _;
  listing = refl;
  fits = omega arith;
  running = refl;
  serving = refl;
  standby = calm-IsUp _;
  known = refl;
  no_reshard = tt;
  no_drain = tt;
  unlocked = refl;
}

calm-Measures : Measures calm start idle
unfolding running_job query_pod_metrics query_cpu_metrics query_memory_metrics collect insert lookup
    join_metrics phase
calm-Measures = record { ready = calm-IsReady; monitors = refl; free = refl; loads = refl }

not_over : any (is_overloaded calm spec) idle ≡ false
unfolding is_overloaded
not_over = refl

spare : is_some (check_scale_down calm spec idle) ≡ true
unfolding check_scale_down count_underutilized is_underutilized
spare = refl

two_masters : 2 ≤ length (select (is_master_load cluster) idle)
unfolding is_master_load scan_index scan_int leading_digits digit_value value number_of positive
    negative strip_prefix
two_masters = omega arith

spare_pods_start_drain_example :
    SavesStatus
      (record start { calls = (measured calm start).calls })
      (start_draining
        (last_master_name cluster)
        (destinations (last_master_name cluster) (sorted_masters calm cluster idle))
        status)
      (handle_auto_scaling calm start).1
spare_pods_start_drain_example =
    spare_pods_start_drain calm calm_updates start _ _ calm-Measures not_over spare two_masters
