-- ===== src/Reshard.antt =====
-- internal/controller/upscale.go: `checkReshardingStatus`, one function for each part of its body.
pub mod Moves
pub mod Writes
pub mod Grows
pub mod Retries
use redis_foxtrot_autoscaler.Prelude.{ℕ, ◌*◌, true, false, not, some, ◌==◌, if◌then◌else◌}
use redis_foxtrot_autoscaler.Prelude.Int.{pos}
use redis_foxtrot_autoscaler.Prelude.Int32.{lt32, add32}
use redis_foxtrot_autoscaler.Prelude.Text.{str_eq}
use redis_foxtrot_autoscaler.Errors.{not_found, failure}
use redis_foxtrot_autoscaler.Cluster.{RedisClusterStatus}
use redis_foxtrot_autoscaler.Cluster.Index.{total_replicas}
use redis_foxtrot_autoscaler.Kube.{
  Action, pure, ◌>>=◌, ◌>>◌, current, modify_status, modify_spec, Outcome, done, again, after,
  fail_api, second, Response, ok, err, Key, JobStatus, StatefulSetView, Platform, fetch_job,
  fetch_stateful_set, put_status, put_cluster, drop_job, key_in, or_else, read_now, stateful_set,
}
use redis_foxtrot_autoscaler.Jobs.{reshard_name, reshard_job}
use redis_foxtrot_autoscaler.Resources.{stateful_set_for}
use redis_foxtrot_autoscaler.Infrastructure.{reconcile_owned, create_owned_job, created}

-- The status after a failed or impossible scale-up.
abbrev pub stop_resharding : RedisClusterStatus → RedisClusterStatus
stop_resharding st = record st { is_resharding = false }

abbrev pub reshard_failed : RedisClusterStatus → RedisClusterStatus
reshard_failed st = record st { is_resharding = false; overloaded_pod = "" }

abbrev pub start_provisioning : ℕ → RedisClusterStatus → RedisClusterStatus
start_provisioning now st = record st {
  is_resharding = false;
  is_provisioning_standby = true;
  overloaded_pod = "";
  last_scale_time = some now;
}

module _ {F : Type 0} (p : Platform F) where
  -- The overloaded pod or the standby is not known: the scale-up is given up.
  unfoldable pub abandon_reshard : Action Outcome
  abandon_reshard = do modify_status stop_resharding; put_status p; pure done

  unfoldable pub start_reshard : Action Outcome
  start_reshard = do
    c ← current
    if str_eq c.status.overloaded_pod ""
        then abandon_reshard
        else if str_eq c.status.standby_pod ""
        then abandon_reshard
        else (create_owned_job p (reshard_job c c.status.overloaded_pod c.status.standby_pod)
            >>= λ e. pure (created p again e))

  -- The spec is saved; a stateful set that cannot be written is only logged.
  unfoldable pub save_provisioning : Key → Action Outcome
  save_provisioning k = do
    c ← current
    reconcile_owned p (stateful_set (stateful_set_for c))
    now ← read_now p
    modify_status (start_provisioning now)
    or_else (put_status p) fail_api (do drop_job p k; pure (after (pos (5 * second))))

  unfoldable pub finish_reshard : Key → Action Outcome
  finish_reshard k = do
    modify_spec (λ s. record s { masters = add32 s.masters 1 })
    or_else (put_cluster p) fail_api (save_provisioning k)

  unfoldable pub fail_reshard : Key → Action Outcome
  fail_reshard k = do
    drop_job p k
    modify_status reshard_failed
    or_else (put_status p) fail_api (pure (after (pos second)))

  -- The answer of the reshard job.
  abbrev pub follow_reshard : Key → StatefulSetView → Response JobStatus → Action Outcome
  follow_reshard k sts (err not_found) = do
    c ← current
    if not (sts.ready_replicas == total_replicas c.spec)
        then pure (after (pos (10 * second)))
        else start_reshard
  follow_reshard k sts (err (failure n)) = pure (fail_api (failure n))
  follow_reshard k sts (ok j) =
      if lt32 0 j.succeeded
      then finish_reshard k
      else if lt32 0 j.failed
      then fail_reshard k
      else pure (after (pos (15 * second)))

  -- The answer of the stateful set.
  abbrev pub await_pods : Response StatefulSetView → Action Outcome
  await_pods (err e) = pure (fail_api e)
  await_pods (ok sts) = do
    c ← current
    if not (sts.replicas == total_replicas c.spec)
        then pure (after (pos (5 * second)))
        else if not (sts.ready_replicas == total_replicas c.spec)
        then pure (after (pos (10 * second)))
        else (fetch_job p (key_in c (reshard_name c))
            >>= follow_reshard (key_in c (reshard_name c)) sts)

  unfoldable pub check_resharding_status : Action Outcome
  check_resharding_status = do c ← current; fetch_stateful_set p (key_in c c.name) >>= await_pods
