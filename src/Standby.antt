-- ===== src/Standby.antt =====
-- internal/controller/rediscluster_controller.go: `detectAndSetStandbyPod`; autoscaler.go:
-- `checkAndUpdateStandbyPod`.
pub mod Effects
pub mod Finds
use redis_foxtrot_autoscaler.Prelude.{
  Bool, true, false, Option, none, some, List, String, any, if◌then◌else◌,
}
use redis_foxtrot_autoscaler.Prelude.Text.{str_eq}
use redis_foxtrot_autoscaler.Errors.{
  Error, ApiError, not_found, failure, Phase, running, list_redis_pods, standby_not_implemented,
  standby_not_ready, get_standby, standby_not_running, standby_containers_not_ready, detect_standby,
  save_standby, standby_updated,
}
use redis_foxtrot_autoscaler.Cluster.{RedisCluster}
use redis_foxtrot_autoscaler.Cluster.Index.{standby_pod_name}
use redis_foxtrot_autoscaler.Kube.{
  Action, pure, ◌>>=◌, ◌>>◌, current, modify_status, Response, ok, err, Pod, Platform, fetch_pod,
  fetch_pods, put_status, key_in,
}

abbrev pub is_running : Phase → Bool
is_running running = true
is_running _ = false

-- `cluster.Status.StandbyPod = name`
abbrev pub set_standby : String → Action (Option Error)
set_standby name = do modify_status (λ st. record st { standby_pod = name }); pure none

-- The answer of the list of pods of an existing cluster.
abbrev pub detect_existing : RedisCluster → Response (List Pod) → Action (Option Error)
detect_existing c (err e) = pure (some (list_redis_pods e))
detect_existing c (ok pods) =
    if str_eq c.status.standby_pod "" then pure (some standby_not_implemented) else pure none

-- The answer of the pod at the standby's index. One ready container is enough.
abbrev pub detect_managed : String → Response Pod → Action (Option Error)
detect_managed name (err not_found) = pure (some (standby_not_ready name))
detect_managed name (err (failure n)) = pure (some (get_standby (failure n)))
detect_managed name (ok pod) =
    if is_running pod.phase
    then if any (λ ready. ready) pod.container_ready
      then set_standby name
      else pure (some (standby_containers_not_ready name))
    else pure (some (standby_not_running name pod.phase))

module _ {F : Type 0} (p : Platform F) where
  unfoldable pub detect_and_set_standby_pod : Action (Option Error)
  detect_and_set_standby_pod = do
    c ← current
    if c.spec.existing_cluster
        then fetch_pods p c.namespace c.spec.pod_selector >>= detect_existing c
        else fetch_pod p (key_in c (standby_pod_name c)) >>= detect_managed (standby_pod_name c)

  abbrev pub standby_saved : Option ApiError → Option Error
  standby_saved none = some standby_updated
  standby_saved (some e) = some save_standby

  -- The new standby is saved, and that ends this round too.
  abbrev pub save_changed : String → Option Error → Action (Option Error)
  save_changed old (some e) = pure (some (detect_standby e))
  save_changed old none = do
    c ← current
    if str_eq c.status.standby_pod old
        then pure none
        else (put_status p >>= λ e. pure (standby_saved e))

  unfoldable pub check_and_update_standby_pod : Action (Option Error)
  check_and_update_standby_pod = do
    c ← current
    detect_and_set_standby_pod >>= save_changed c.status.standby_pod
