-- ===== src/Drain.antt =====
-- internal/controller/downscale.go: `checkDrainStatus`, one function for each part of its body.
pub mod Moves
pub mod Writes
pub mod Shrinks
pub mod Retries
use redis_foxtrot_autoscaler.Prelude.{ℕ, ◌*◌, false, ◌||◌, some, String, if◌then◌else◌}
use redis_foxtrot_autoscaler.Prelude.Int.{pos}
use redis_foxtrot_autoscaler.Prelude.Int32.{lt32, sub32}
use redis_foxtrot_autoscaler.Prelude.Text.{str_eq}
use redis_foxtrot_autoscaler.Errors.{not_found, failure}
use redis_foxtrot_autoscaler.Cluster.{RedisClusterStatus}
use redis_foxtrot_autoscaler.Kube.{
  Action, pure, ◌>>=◌, ◌>>◌, current, modify_status, modify_spec, Outcome, done, again, after,
  fail_api, second, Response, ok, err, Key, JobStatus, Platform, fetch_job, put_status, put_cluster,
  drop_job, key_in, or_else, read_now, stateful_set,
}
use redis_foxtrot_autoscaler.Jobs.{drain_name, drain_job, cleanup_name, cleanup_standby_job}
use redis_foxtrot_autoscaler.Resources.{stateful_set_for}
use redis_foxtrot_autoscaler.Infrastructure.{reconcile_owned, create_owned_job, created}
use redis_foxtrot_autoscaler.Health.{is_active}

-- The drain is over, or is given up.
abbrev pub clear_drain : RedisClusterStatus → RedisClusterStatus
clear_drain st = record st {
  is_draining = false;
  pod_to_drain = "";
  drain_dest_pod1 = "";
  drain_dest_pod2 = "";
}

-- The drained pod becomes the standby.
abbrev pub drained : String → ℕ → RedisClusterStatus → RedisClusterStatus
drained pod now st = record st {
  standby_pod = pod;
  is_draining = false;
  pod_to_drain = "";
  drain_dest_pod1 = "";
  drain_dest_pod2 = "";
  last_scale_time = some now;
}

module _ {F : Type 0} (p : Platform F) where
  unfoldable pub abandon_drain : Action Outcome
  abandon_drain = do modify_status clear_drain; put_status p; pure done

  unfoldable pub start_drain : Action Outcome
  start_drain = do
    c ← current
    if str_eq c.status.pod_to_drain "" || str_eq c.status.drain_dest_pod1 ""
        then abandon_drain
        else if str_eq c.status.pod_to_drain c.status.standby_pod
        then abandon_drain
        else (create_owned_job p
              (drain_job c c.status.pod_to_drain c.status.drain_dest_pod1 c.status.drain_dest_pod2)
            >>= λ e. pure (created p again e))

  unfoldable pub start_cleanup : Action Outcome
  start_cleanup = do
    c ← current
    e ← create_owned_job p (cleanup_standby_job c c.status.standby_pod c.status.pod_to_drain)
    pure (created p (after (pos (5 * second))) e)

  -- The spec is saved; a stateful set that cannot be written is only logged.
  unfoldable pub save_drained : String → Key → Key → Action Outcome
  save_drained pod drain cleanup = do
    c ← current
    reconcile_owned p (stateful_set (stateful_set_for c))
    now ← read_now p
    modify_status (drained pod now)
    or_else (put_status p) fail_api (do drop_job p drain; drop_job p cleanup; pure done)

  unfoldable pub finish_drain : String → Key → Key → Action Outcome
  finish_drain pod drain cleanup = do
    modify_spec (λ s. record s { masters = sub32 s.masters 1 })
    or_else (put_cluster p) fail_api (save_drained pod drain cleanup)

  unfoldable pub retry_cleanup : Key → Action Outcome
  retry_cleanup cleanup = do drop_job p cleanup; pure (after (pos (10 * second)))

  -- The answer of the cleanup job, after the drain job has succeeded.
  abbrev pub follow_cleanup : String → Key → Key → Response JobStatus → Action Outcome
  follow_cleanup pod drain cleanup (err not_found) = start_cleanup
  follow_cleanup pod drain cleanup (err (failure n)) = pure (fail_api (failure n))
  follow_cleanup pod drain cleanup (ok j) =
      if is_active j
      then pure (after (pos (5 * second)))
      else if lt32 0 j.failed
      then retry_cleanup cleanup
      else finish_drain pod drain cleanup

  abbrev pub clean_up : Key → Action Outcome
  clean_up drain = do
    c ← current
    r ← fetch_job p (key_in c (cleanup_name c))
    follow_cleanup c.status.pod_to_drain drain (key_in c (cleanup_name c)) r

  unfoldable pub fail_drain : Key → Action Outcome
  fail_drain drain = do
    drop_job p drain
    modify_status clear_drain
    or_else (put_status p) fail_api (pure (after (pos second)))

  -- The answer of the drain job.
  abbrev pub follow_drain : Key → Response JobStatus → Action Outcome
  follow_drain drain (err not_found) = start_drain
  follow_drain drain (err (failure n)) = pure (fail_api (failure n))
  follow_drain drain (ok j) =
      if lt32 0 j.succeeded
      then clean_up drain
      else if lt32 0 j.failed
      then fail_drain drain
      else pure (after (pos (30 * second)))

  unfoldable pub check_drain_status : Action Outcome
  check_drain_status = do
    c ← current
    fetch_job p (key_in c (drain_name c)) >>= follow_drain (key_in c (drain_name c))
