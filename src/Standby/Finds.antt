-- ===== src/Standby/Finds.antt =====
-- A standby that is up is found, on a managed cluster.
use redis_foxtrot_autoscaler.Prelude.{
  ◌≡◌, ◌∙◌, ap, true, false, Option, none, List, ◌∷◌, any, if_true, if_false,
}
use redis_foxtrot_autoscaler.Errors.{Error}
use redis_foxtrot_autoscaler.Cluster.{RedisCluster}
use redis_foxtrot_autoscaler.Cluster.Index.{standby_pod_name}
use redis_foxtrot_autoscaler.Kube.{Action, State, Pod, Request, get_pod, ok, Platform, key_in}
use redis_foxtrot_autoscaler.Standby.{is_running, detect_managed, detect_and_set_standby_pod}
use redis_foxtrot_autoscaler.Standby.Effects.{noted}

module _ {F : Type 0} (p : Platform F) where
  -- The pod at the standby's index runs, with a container that is ready, to a request after the calls `h`.
  pub record IsUp (c : RedisCluster) (h : List Request) : Type 0 where
    pub managed : c.spec.existing_cluster ≡ false
    pub pod : Pod
    pub found : p.read_pod h (key_in c (standby_pod_name c)) ≡ ok pod
    pub running : is_running pod.phase ≡ true
    pub ready : any (λ r. r) pod.container_ready ≡ true

  abbrev pub looked_up : RedisCluster → List Request → List Request
  looked_up c h = get_pod (key_in c (standby_pod_name c)) ∷ h

  pub standby_found :
      (c : RedisCluster) (h : List Request)
      → IsUp c h
      → detect_and_set_standby_pod p (record { cluster = c; calls = h })
        ≡ (none, record { cluster = noted c (standby_pod_name c); calls = looked_up c h })
  unfolding detect_and_set_standby_pod
  standby_found c h u =
      let name = standby_pod_name c in
      let s : State = record { cluster = c; calls = looked_up c h } in
      ap (λ (m : Action (Option Error)). m (record { cluster = c; calls = h }))
        (if_false _ _ u.managed)
      ∙ ap (λ x. detect_managed name x s) u.found
      ∙ ap (λ (m : Action (Option Error)). m s) (if_true _ _ u.running ∙ if_true _ _ u.ready)
