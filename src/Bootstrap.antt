-- ===== src/Bootstrap.antt =====
-- internal/controller/rediscluster_controller.go: `handleBootstrap` and `discoverRedisTopology`.
-- `none` is the answer `done == false`, with which `Reconcile` goes on.
pub mod Gate
pub mod Completes
pub mod Exclusive
use redis_foxtrot_autoscaler.Prelude.{
  ◌*◌, true, not, Option, none, some, List, [], ◌∷◌, String, ◌==◌, any, if◌then◌else◌,
}
use redis_foxtrot_autoscaler.Prelude.Int.{pos}
use redis_foxtrot_autoscaler.Prelude.Int32.{lt32, mul32}
use redis_foxtrot_autoscaler.Prelude.Text.{str_eq}
use redis_foxtrot_autoscaler.Errors.{
  Error, ApiError, not_found, failure, list_redis_pods, no_pods_found, no_running_pods,
  bootstrap_failed, index_out_of_range,
}
use redis_foxtrot_autoscaler.Cluster.{RedisCluster, RedisClusterSpec, RedisClusterStatus}
use redis_foxtrot_autoscaler.Cluster.Index.{total_replicas}
use redis_foxtrot_autoscaler.Kube.{
  Action, pure, ◌>>=◌, ◌>>◌, current, modify_status, Outcome, done, again, after, fail, fail_api,
  second, Response, ok, err, Job, Pod, JobStatus, StatefulSetView, Platform, fetch_pods, fetch_job,
  fetch_stateful_set, put_status, key_in,
}
use redis_foxtrot_autoscaler.Jobs.{bootstrap_name}
use redis_foxtrot_autoscaler.Jobs.Bootstrap.{bootstrap_job}
use redis_foxtrot_autoscaler.Infrastructure.{create_owned_job, created}
use redis_foxtrot_autoscaler.Standby.{is_running, detect_and_set_standby_pod}

abbrev pub mark_initialized : RedisClusterStatus → RedisClusterStatus
mark_initialized st = record st { initialized = true }

abbrev pub mark_discovered : RedisClusterSpec → RedisClusterStatus → RedisClusterStatus
mark_discovered spec st = record st {
  initialized = true;
  current_masters = spec.masters;
  current_replicas = mul32 spec.masters spec.replicas_per_master;
}

-- The answer of the list of pods: one of them has to run.
abbrev pub discover_from : RedisCluster → Response (List Pod) → Action (Option Error)
discover_from c (err e) = pure (some (list_redis_pods e))
discover_from c (ok []) = pure (some (no_pods_found c.spec.pod_selector))
discover_from c (ok (q ∷ qs)) =
    if any (λ pod. is_running pod.phase) (q ∷ qs)
    then (modify_status (mark_discovered c.spec) >> pure none)
    else pure (some no_running_pods)

-- `done == true`, with a result that depends on whether the last write failed.
abbrev pub stop_unless : Option ApiError → Option Outcome → Option Outcome
stop_unless none good = good
stop_unless (some e) good = some (fail_api e)

module _ {F : Type 0} (p : Platform F) where
  unfoldable pub discover_redis_topology : Action (Option Error)
  discover_redis_topology = do
    c ← current
    fetch_pods p c.namespace c.spec.pod_selector >>= discover_from c

  -- An error is only logged, and the round ends.
  abbrev pub or_wait : Option Error → Action (Option Outcome) → Action (Option Outcome)
  or_wait (some e) rest = pure (some (after (pos (10 * second))))
  or_wait none rest = rest

  unfoldable pub adopt_existing : Action (Option Outcome)
  adopt_existing = do
    found ← discover_redis_topology
    or_wait found (do
      standby ← detect_and_set_standby_pod p
      or_wait standby (put_status p >>= λ e. pure (stop_unless e none)))

  abbrev pub create_bootstrap : Option Job → Action (Option Outcome)
  create_bootstrap none = pure (some (fail index_out_of_range))
  create_bootstrap (some j) = create_owned_job p j >>= λ e. pure (some (created p again e))

  abbrev pub save_bootstrapped : Option Error → Action (Option Outcome)
  save_bootstrapped (some e) = pure (some (fail e))
  save_bootstrapped none = put_status p >>= λ e. pure (stop_unless e (some done))

  unfoldable pub finish_bootstrap : Action (Option Outcome)
  finish_bootstrap = do
    modify_status mark_initialized
    detect_and_set_standby_pod p >>= save_bootstrapped

  -- The answer of the bootstrap job.
  abbrev pub follow_bootstrap : RedisCluster → Response JobStatus → Action (Option Outcome)
  follow_bootstrap c (err not_found) = create_bootstrap (bootstrap_job c)
  follow_bootstrap c (err (failure n)) = pure (some (fail_api (failure n)))
  follow_bootstrap c (ok j) =
      if lt32 0 j.succeeded
      then finish_bootstrap
      else if lt32 0 j.failed
      then pure (some (fail (bootstrap_failed (bootstrap_name c))))
      else pure (some again)

  abbrev pub await_stateful_set : RedisCluster → Response StatefulSetView → Action (Option Outcome)
  await_stateful_set c (err e) = pure (some (fail_api e))
  await_stateful_set c (ok sts) =
      if not (sts.ready_replicas == total_replicas c.spec)
      then pure (some (after (pos (5 * second))))
      else if c.status.initialized
      then pure none
      else (fetch_job p (key_in c (bootstrap_name c)) >>= follow_bootstrap c)

  abbrev pub stateful_set_name : RedisCluster → String
  stateful_set_name c =
      if str_eq c.spec.stateful_set_name "" then c.name else c.spec.stateful_set_name

  unfoldable pub handle_bootstrap : Action (Option Outcome)
  handle_bootstrap = do
    c ← current
    if c.spec.existing_cluster
        then (if c.status.initialized then pure none else adopt_existing)
        else (fetch_stateful_set p (key_in c (stateful_set_name c)) >>= await_stateful_set c)
