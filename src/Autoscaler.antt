-- ===== src/Autoscaler.antt =====
-- internal/controller/autoscaler.go: `handleAutoScaling` and `monitorMetrics`.
pub mod Machine
pub mod Idle
pub mod Round
pub mod Monitor
pub mod Moves
pub mod Exclusive
pub mod Cycle
pub mod Responds
pub mod Restores
pub mod Writes
use redis_foxtrot_autoscaler.Prelude.{false, Option, none, some, List, [], ◌∷◌, if◌then◌else◌}
use redis_foxtrot_autoscaler.Prelude.Int.{ℤ}
use redis_foxtrot_autoscaler.Kube.{
  Action, pure, ◌>>=◌, current, Outcome, after, seconds, Platform, PodLoad,
}
use redis_foxtrot_autoscaler.Jobs.{reshard_name}
use redis_foxtrot_autoscaler.Health.{
  ClusterHealthStatus, is_cluster_healthy_for_scaling, is_job_running,
}
use redis_foxtrot_autoscaler.Metrics.{Fallible, got, failed, query_pod_metrics}
use redis_foxtrot_autoscaler.Decision.{Reason, check_scale_up, check_scale_down}
use redis_foxtrot_autoscaler.Trigger.{trigger_scale_up, trigger_scale_down}
use redis_foxtrot_autoscaler.Reshard.{check_resharding_status}
use redis_foxtrot_autoscaler.Provision.{check_provisioning_status}
use redis_foxtrot_autoscaler.Drain.{check_drain_status}

module _ {F : Type 0} (p : Platform F) where
  abbrev pub down_or_wait : ℤ → List (PodLoad F) → Option (Reason F) → Action Outcome
  down_or_wait delay ls none = pure (after delay)
  down_or_wait delay ls (some why) = trigger_scale_down p ls

  abbrev pub up_or_down : ℤ → List (PodLoad F) → Option (PodLoad F × Reason F) → Action Outcome
  up_or_down delay ls (some (t, why)) = trigger_scale_up p t
  up_or_down delay ls none = do c ← current; down_or_wait delay ls (check_scale_down p c.spec ls)

  -- Scaling up comes before scaling down.
  unfoldable pub decide : ℤ → List (PodLoad F) → Action Outcome
  decide delay ls = do c ← current; up_or_down delay ls (check_scale_up p c.spec ls)

  abbrev pub on_metrics : ℤ → Fallible (List (PodLoad F)) → Action Outcome
  on_metrics delay (failed e) =
      pure (record { requeue = false; requeue_after = delay; error = some e })
  on_metrics delay (got []) = pure (after delay)
  on_metrics delay (got (l ∷ ls)) = decide delay (l ∷ ls)

  unfoldable pub when_idle : ℤ → Action Outcome
  when_idle delay = do
    c ← current
    busy ← is_job_running p (reshard_name c)
    if busy then pure (after delay) else (query_pod_metrics p >>= on_metrics delay)

  abbrev pub when_healthy : ℤ → ClusterHealthStatus → Action Outcome
  when_healthy delay h = if h.is_healthy then when_idle delay else pure (after h.requeue_after)

  unfoldable pub monitor_metrics : Action Outcome
  monitor_metrics = do
    c ← current
    is_cluster_healthy_for_scaling p >>= when_healthy (seconds c.spec.metrics_query_interval)

  unfoldable pub handle_auto_scaling : Action Outcome
  handle_auto_scaling = do
    c ← current
    if c.status.is_draining
        then check_drain_status p
        else if c.status.is_resharding
        then check_resharding_status p
        else if c.status.is_provisioning_standby
        then check_provisioning_status p
        else monitor_metrics
