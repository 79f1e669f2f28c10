-- ===== src/Infrastructure/Exclusive.antt =====
-- `reconcileInfrastructure` keeps the status exclusive.
use redis_foxtrot_autoscaler.Prelude.{if_cases, Option, none, some, List}
use redis_foxtrot_autoscaler.Errors.{ApiError}
use redis_foxtrot_autoscaler.Cluster.{RedisCluster}
use redis_foxtrot_autoscaler.Resources.{
  config_map_for, service_for, stateful_set_for, service_monitor_for,
}
use redis_foxtrot_autoscaler.Kube.{
  State, Action, Request, Response, ok, err, Service, Resource, Platform, config_map, service,
  stateful_set, service_monitor, also, fetch_service, key_in,
}
use redis_foxtrot_autoscaler.Infrastructure.{
  reconcile_owned, if_owned, and_then, monitor_existing, reconcile_infrastructure,
}
use redis_foxtrot_autoscaler.Autoscaler.Exclusive.{Keeps, owned-Keeps}

module _ {F : Type 0} (p : Platform F) where
  if_owned-Keeps :
      {h : List Request} (o : Option ApiError) (m : Action (Option ApiError)) (s : State)
      → Keeps h s
      → Keeps h (m s).1
      → Keeps h (if_owned p o m s).1
  if_owned-Keeps none m s k r = r
  if_owned-Keeps (some e) m s k r = k

  then_owned-Keeps :
      {h : List Request} (x : Resource) (m : Action (Option ApiError)) (s : State)
      → Keeps h s
      → ((t : State) → Keeps h t → Keeps h (m t).1)
      → Keeps h (and_then p (reconcile_owned p x) m s).1
  then_owned-Keeps x m s k r =
      let t = (reconcile_owned p x s).1 in
      if_owned-Keeps (reconcile_owned p x s).0 m t (owned-Keeps p x s k) (r t (owned-Keeps p x s k))

  existing-Keeps :
      {h : List Request} (c : RedisCluster) (r : Response Service) (s : State)
      → Keeps h s
      → Keeps h (monitor_existing p c r s).1
  existing-Keeps c (err e) s k = k
  existing-Keeps c (ok svc) s k = owned-Keeps p (service_monitor (service_monitor_for c svc)) s k

  pub infrastructure-Keeps :
      {h : List Request} (s : State) → Keeps h s → Keeps h (reconcile_infrastructure p s).1
  unfolding reconcile_infrastructure
  infrastructure-Keeps {h} s k =
      let c = s.cluster in
      let monitor = service_monitor (service_monitor_for c (service_for c)) in
      then_owned-Keeps (config_map (config_map_for c)) _ s k (λ t kt.
        if_cases {A = Action (Option ApiError)} (λ m. Keeps h (m t).1) c.spec.manage_stateful_set _
          _
          (λ _. then_owned-Keeps (service (service_for c)) _ t kt (λ u ku.
            then_owned-Keeps (stateful_set (stateful_set_for c)) _ u ku
              (λ v kv. owned-Keeps p monitor v kv)))
          (λ _.
            existing-Keeps c (p.read_service t.calls (key_in c c.spec.service_name))
              (fetch_service p (key_in c c.spec.service_name) t).1
              (record { valid = kt.valid; sent = also tt kt.sent })))
