-- ===== src/Provision.antt =====
-- internal/controller/provision_standby.go: `checkProvisioningStatus`, one function for each part.
pub mod Moves
pub mod Writes
pub mod Joins
use redis_foxtrot_autoscaler.Prelude.{◌*◌, Bool, false, ◌&&◌, String, any, if◌then◌else◌}
use redis_foxtrot_autoscaler.Prelude.Int.{pos}
use redis_foxtrot_autoscaler.Prelude.Int32.{lt32}
use redis_foxtrot_autoscaler.Prelude.Text.{str_eq}
use redis_foxtrot_autoscaler.Errors.{not_found, failure}
use redis_foxtrot_autoscaler.Cluster.{RedisClusterStatus}
use redis_foxtrot_autoscaler.Cluster.Index.{standby_pod_name}
use redis_foxtrot_autoscaler.Kube.{
  Action, pure, ◌>>=◌, ◌>>◌, current, modify_status, Outcome, again, after, fail_api, second,
  Response, ok, err, Key, Pod, JobStatus, Platform, fetch_job, fetch_pod, put_status, drop_job,
  key_in, or_else,
}
use redis_foxtrot_autoscaler.Jobs.{join_name, join_nodes_job}
use redis_foxtrot_autoscaler.Infrastructure.{create_owned_job, created}
use redis_foxtrot_autoscaler.Standby.{is_running}

abbrev pub finish_provisioning : String → RedisClusterStatus → RedisClusterStatus
finish_provisioning name st = record st { standby_pod = name; is_provisioning_standby = false }

abbrev pub stop_provisioning : RedisClusterStatus → RedisClusterStatus
stop_provisioning st = record st { is_provisioning_standby = false }

abbrev pub is_ready_condition : String × String → Bool
is_ready_condition (type, status) = str_eq type "Ready" && str_eq status "True"

module _ {F : Type 0} (p : Platform F) where
  unfoldable pub start_join : Action Outcome
  start_join = do
    c ← current
    e ← create_owned_job p (join_nodes_job c)
    pure (created p (after (pos (5 * second))) e)

  unfoldable pub finish_join : String → Key → Action Outcome
  finish_join name k = do
    modify_status (finish_provisioning name)
    or_else (put_status p) fail_api (do drop_job p k; pure again)

  unfoldable pub fail_join : Key → Action Outcome
  fail_join k = do
    drop_job p k
    modify_status stop_provisioning
    or_else (put_status p) fail_api (pure (after (pos (10 * second))))

  -- The answer of the join-nodes job.
  abbrev pub follow_join : String → Key → Response JobStatus → Action Outcome
  follow_join name k (err not_found) = start_join
  follow_join name k (err (failure n)) = pure (fail_api (failure n))
  follow_join name k (ok j) =
      if lt32 0 j.succeeded
      then finish_join name k
      else if lt32 0 j.failed
      then fail_join k
      else pure (after (pos (10 * second)))

  -- The answer of the pod at the new standby's index.
  abbrev pub await_standby : String → Response Pod → Action Outcome
  await_standby name (err not_found) = pure (after (pos (5 * second)))
  await_standby name (err (failure n)) = pure (fail_api (failure n))
  await_standby name (ok pod) = do
    c ← current
    if is_running pod.phase && any is_ready_condition pod.conditions
        then (fetch_job p (key_in c (join_name c)) >>= follow_join name (key_in c (join_name c)))
        else pure (after (pos (5 * second)))

  unfoldable pub check_provisioning_status : Action Outcome
  check_provisioning_status = do
    c ← current
    fetch_pod p (key_in c (standby_pod_name c)) >>= await_standby (standby_pod_name c)
