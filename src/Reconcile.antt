-- ===== src/Reconcile.antt =====
-- internal/controller/rediscluster_controller.go: `Reconcile`.
pub mod Rejects
pub mod Exclusive
pub mod History
use redis_foxtrot_autoscaler.Prelude.{◌&&◌, Option, none, some, if◌then◌else◌}
use redis_foxtrot_autoscaler.Prelude.Text.{str_eq}
use redis_foxtrot_autoscaler.Errors.{Error, not_found, failure}
use redis_foxtrot_autoscaler.Cluster.{RedisCluster}
use redis_foxtrot_autoscaler.Cluster.Spec.{set_defaults, validate_spec}
use redis_foxtrot_autoscaler.Kube.{
  Action, pure, ◌>>=◌, ◌>>◌, current, Outcome, done, after, fail, fail_api, seconds, Response, ok,
  err, Key, Platform, fetch_cluster, put_status, or_else,
}
use redis_foxtrot_autoscaler.Infrastructure.{reconcile_infrastructure}
use redis_foxtrot_autoscaler.Bootstrap.{handle_bootstrap}
use redis_foxtrot_autoscaler.Standby.{detect_and_set_standby_pod}
use redis_foxtrot_autoscaler.Autoscaler.{handle_auto_scaling}

-- `cluster` now points to the object that was read.
abbrev pub hold : RedisCluster → Action (Unit {0})
hold c s = (tt, record s { cluster = c })

module _ {F : Type 0} (p : Platform F) where
  unfoldable pub scale_or_wait : Action Outcome
  scale_or_wait = do
    c ← current
    if c.status.initialized && c.spec.auto_scale_enabled
        then handle_auto_scaling p
        else pure (after (seconds c.spec.metrics_query_interval))

  abbrev pub save_detected : Option Error → Action Outcome
  save_detected (some e) = do c ← current; pure (after (seconds c.spec.metrics_query_interval))
  save_detected none = or_else (put_status p) fail_api scale_or_wait

  unfoldable pub ensure_standby : Action Outcome
  ensure_standby = do
    c ← current
    if str_eq c.status.standby_pod ""
        then (detect_and_set_standby_pod p >>= save_detected)
        else scale_or_wait

  abbrev pub after_bootstrap : Option Outcome → Action Outcome
  after_bootstrap (some o) = pure o
  after_bootstrap none = ensure_standby

  abbrev pub if_valid : Option Error → Action Outcome
  if_valid (some e) = pure (fail e)
  if_valid none =
      or_else (reconcile_infrastructure p) fail_api (handle_bootstrap p >>= after_bootstrap)

  abbrev pub reconcile_found : Response RedisCluster → Action Outcome
  reconcile_found (err not_found) = pure done
  reconcile_found (err (failure n)) = pure (fail_api (failure n))
  reconcile_found (ok c) = do hold (set_defaults c); if_valid (validate_spec (set_defaults c).spec)

  unfoldable pub reconcile : Key → Action Outcome
  reconcile k = fetch_cluster p k >>= reconcile_found
