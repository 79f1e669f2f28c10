-- ===== src/Infrastructure.antt =====
-- internal/controller/rediscluster_controller.go: `reconcileInfrastructure`, the four `reconcile...`
-- methods and `reconcileResource`; and the creation of a job that the cluster owns.
pub mod Effects
pub mod Writes
pub mod Exclusive
pub mod Order
use redis_foxtrot_autoscaler.Prelude.{Option, none, some, String, if◌then◌else◌}
use redis_foxtrot_autoscaler.Errors.{ApiError, not_found, failure}
use redis_foxtrot_autoscaler.Cluster.{RedisCluster}
use redis_foxtrot_autoscaler.Kube.{
  Action, pure, ◌>>=◌, current, Response, ok, err, Job, Service, Resource, config_map, service,
  stateful_set, service_monitor, Platform, fetch_service, fetch_resource, make_resource,
  put_resource, make_job, key_of, key_in, Outcome, fail_api,
}
use redis_foxtrot_autoscaler.Resources.{
  config_map_for, service_for, stateful_set_for, service_monitor_for,
}

abbrev pub resource_name : Resource → String
resource_name (config_map x) = x.name
resource_name (service x) = x.name
resource_name (stateful_set x) = x.name
resource_name (service_monitor x) = x.name

module _ {F : Type 0} (p : Platform F) where
  -- Created where the server has none, updated with its resource version otherwise.
  abbrev pub create_or_update : Resource → Response (Unit {0}) → Action (Option ApiError)
  create_or_update x (err not_found) = make_resource p x
  create_or_update x (err (failure n)) = pure (some (failure n))
  create_or_update x (ok _) = put_resource p x

  unfoldable pub reconcile_resource : Resource → Action (Option ApiError)
  reconcile_resource x = fetch_resource p x >>= create_or_update x

  abbrev pub if_owned : Option ApiError → Action (Option ApiError) → Action (Option ApiError)
  if_owned none m = m
  if_owned (some e) m = pure (some e)

  -- `SetControllerReference`, and then `reconcileResource`: the four `reconcile...` methods.
  unfoldable pub reconcile_owned : Resource → Action (Option ApiError)
  reconcile_owned x = do
    c ← current
    if_owned (p.set_owner c (resource_name x)) (reconcile_resource x)

  -- `SetControllerReference` of a job, and then `r.Create`.
  unfoldable pub create_owned_job : Job → Action (Option ApiError)
  create_owned_job j = do
    c ← current
    if_owned (p.set_owner c j.name) (make_job p (record j { owner = some (key_of c) }))

  -- What a round answers after it has tried to create a job.
  abbrev pub created : Outcome → Option ApiError → Outcome
  created good none = good
  created good (some e) = fail_api e

  abbrev pub and_then :
      Action (Option ApiError) → Action (Option ApiError) → Action (Option ApiError)
  and_then m rest = m >>= λ e. if_owned e rest

  -- The service of an existing cluster may be missing or unreadable: then there is no monitor.
  abbrev pub monitor_existing : RedisCluster → Response Service → Action (Option ApiError)
  monitor_existing c (err e) = pure none
  monitor_existing c (ok svc) = reconcile_owned (service_monitor (service_monitor_for c svc))

  unfoldable pub reconcile_infrastructure : Action (Option ApiError)
  reconcile_infrastructure = do
    c ← current
    and_then (reconcile_owned (config_map (config_map_for c))) (
        if c.spec.manage_stateful_set
        then and_then (reconcile_owned (service (service_for c))) (
            and_then (reconcile_owned (stateful_set (stateful_set_for c)))
              (reconcile_owned (service_monitor (service_monitor_for c (service_for c)))))
        else (fetch_service p (key_in c c.spec.service_name) >>= monitor_existing c))
