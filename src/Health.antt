-- ===== src/Health.antt =====
-- internal/controller/autoscaler.go: the checks before a scaling decision.
pub mod Counts
pub mod Effects
pub mod Writes
pub mod Sound
pub mod Complete
use redis_foxtrot_autoscaler.Prelude.{
  ℕ, ◌+◌, Bool, true, false, ◌&&◌, ◌||◌, Option, none, some, List, [], ◌∷◌, String, ltb, ◌==◌,
  if◌then◌else◌,
}
use redis_foxtrot_autoscaler.Prelude.Int.{ℤ, pos, sub_ℕ, ltb_ℤ, ◌-ℤ◌}
use redis_foxtrot_autoscaler.Prelude.Int32.{Int32, half, lt32}
use redis_foxtrot_autoscaler.Errors.{
  Error, not_found, failure, cooldown_active, list_pods_failed, pod_count_mismatch, pods_not_ready,
  query_job, job_in_progress, job_failed,
}
use redis_foxtrot_autoscaler.Cluster.{RedisCluster}
use redis_foxtrot_autoscaler.Cluster.Index.{total_replicas}
use redis_foxtrot_autoscaler.Kube.{
  Action, pure, ◌>>=◌, current, Response, ok, err, Pod, JobStatus, Platform, fetch_pods, fetch_job,
  key_in, seconds, second,
}
use redis_foxtrot_autoscaler.Jobs.{get_labels, reshard_name, drain_name}
use redis_foxtrot_autoscaler.Standby.{is_running, check_and_update_standby_pod}
use Prim.Native.Nat.{◌*◌}

-- Time since the last scaling, against `time.Duration(s) * time.Second`.
unfoldable pub cooldown_at : ℕ → Option ℕ → Int32 → Option Error
cooldown_at now none s = none
cooldown_at now (some last) s =
    if ltb_ℤ (sub_ℕ now last) (seconds s)
    then some (cooldown_active (seconds s -ℤ sub_ℕ now last))
    else none

-- `allReady`: some container, and none that is not ready.
unfoldable pub all_ready : List Bool → Bool
all_ready [] = false
all_ready (r ∷ []) = r
all_ready (r ∷ s ∷ rs) = r && all_ready (s ∷ rs)

abbrev pub bump : Bool → ℕ → ℕ
bump b n = if b then n + 1 else n

-- The loop over the pods, on `runningPods` and `readyPods`.
unfoldable pub count_pods : List Pod → ℕ × ℕ → ℕ × ℕ
count_pods [] acc = acc
count_pods (q ∷ qs) (run, ready) =
    count_pods qs (
      bump (is_running q.phase) run,
      bump (is_running q.phase && all_ready q.container_ready) ready,
    )

-- `n == int(expected)`
abbrev pub is_int : ℕ → Int32 → Bool
is_int n expected = ltb expected half && n == expected

unfoldable pub judge_pods : Int32 → ℕ × ℕ → Option Error
judge_pods expected (run, ready) =
    if is_int run expected
    then if is_int ready expected then none else some (pods_not_ready expected ready)
    else some (pod_count_mismatch expected run)

abbrev pub judge_list : Int32 → Response (List Pod) → Option Error
judge_list expected (err e) = some list_pods_failed
judge_list expected (ok pods) = judge_pods expected (count_pods pods (0, 0))

-- Neither counter of a job that is still running is set.
abbrev pub is_active : JobStatus → Bool
is_active j = j.succeeded == 0 && j.failed == 0

unfoldable pub judge_job : String → Response JobStatus → Option Error
judge_job name (err not_found) = none
judge_job name (err (failure n)) = some (query_job name)
judge_job name (ok j) =
    if is_active j
    then some (job_in_progress name)
    else if lt32 0 j.failed
    then some (job_failed name)
    else none

unfoldable pub running_job : Response JobStatus → Bool
running_job (err e) = false
running_job (ok j) = is_active j

pub data HealthReason : Type 0 where
  because : Error → HealthReason
  locked passed : HealthReason

pub record ClusterHealthStatus : Type 0 where
  pub is_healthy : Bool
  pub reason : HealthReason
  pub requeue_after : ℤ

abbrev pub resume_health :
    ℤ → Action ClusterHealthStatus → Option Error → Action ClusterHealthStatus
resume_health delay rest none = rest
resume_health delay rest (some x) =
    pure (record { is_healthy = false; reason = because x; requeue_after = delay })

-- A check that fails ends the health check.
abbrev pub or_unhealthy :
    Action (Option Error) → ℤ → Action ClusterHealthStatus → Action ClusterHealthStatus
or_unhealthy m delay rest = m >>= resume_health delay rest

module _ {F : Type 0} (p : Platform F) where
  unfoldable pub check_cooldown_period : Action (Option Error)
  check_cooldown_period s = (
    cooldown_at (p.now s.calls) s.cluster.status.last_scale_time
        s.cluster.spec.scale_cooldown_seconds,
    s,
  )

  unfoldable pub check_pod_count : Action (Option Error)
  check_pod_count = do
    c ← current
    r ← fetch_pods p c.namespace (get_labels c)
    pure (judge_list (total_replicas c.spec) r)

  unfoldable pub check_job_status : String → Action (Option Error)
  check_job_status name = do c ← current; r ← fetch_job p (key_in c name); pure (judge_job name r)

  unfoldable pub is_job_running : String → Action Bool
  is_job_running name = do c ← current; r ← fetch_job p (key_in c name); pure (running_job r)

  abbrev pub then_drain : RedisCluster → Option Error → Action (Option Error)
  then_drain c (some e) = pure (some e)
  then_drain c none = check_job_status (drain_name c)

  unfoldable pub check_no_jobs_running : Action (Option Error)
  check_no_jobs_running = do c ← current; check_job_status (reshard_name c) >>= then_drain c

  abbrev pub check_lock : ℤ → Action ClusterHealthStatus
  check_lock delay = do
    c ← current
    pure (
        if c.status.is_draining || c.status.is_resharding
        then record { is_healthy = false; reason = locked; requeue_after = delay }
        else record { is_healthy = true; reason = passed; requeue_after = pos 0 })

  unfoldable pub is_cluster_healthy_for_scaling : Action ClusterHealthStatus
  is_cluster_healthy_for_scaling = do
    c ← current
    let delay = seconds c.spec.metrics_query_interval
    or_unhealthy check_cooldown_period delay (
        or_unhealthy check_pod_count delay (
          or_unhealthy (check_and_update_standby_pod p) (pos (10 * second))
            (or_unhealthy check_no_jobs_running delay (check_lock delay))))
