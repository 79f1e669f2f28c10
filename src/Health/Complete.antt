-- ===== src/Health/Complete.antt =====
-- When the check is passed: a managed cluster that is as it should be is declared healthy.
use redis_foxtrot_autoscaler.Prelude.{
  ℕ, ◌≡◌, ◌∙◌, refl, sym, ap, true, false, ◌||◌, ◌<◌, Option, none, List, ◌∷◌, String, arith,
  length, select, if_true, if_false,
}
use redis_foxtrot_autoscaler.Prelude.Int.{ℤ, pos}
use redis_foxtrot_autoscaler.Prelude.Int32.{half}
use redis_foxtrot_autoscaler.Prelude.Text.{str_eq_refl}
use redis_foxtrot_autoscaler.Errors.{Error, not_found, failure}
use redis_foxtrot_autoscaler.Cluster.{RedisCluster}
use redis_foxtrot_autoscaler.Cluster.Index.{standby_pod_name, total_replicas}
use redis_foxtrot_autoscaler.Jobs.{get_labels, reshard_name, drain_name}
use redis_foxtrot_autoscaler.Kube.{
  Action, State, Pod, list_pods, get_job, JobStatus, Request, Response, ok, err, Platform, key_in,
}
use redis_foxtrot_autoscaler.Standby.{
  save_changed, detect_and_set_standby_pod, check_and_update_standby_pod,
}
use redis_foxtrot_autoscaler.Standby.Effects.{noted}
use redis_foxtrot_autoscaler.Standby.Finds.{IsUp, looked_up, standby_found}
use redis_foxtrot_autoscaler.Health.{
  passed, then_drain, or_unhealthy, resume_health, ClusterHealthStatus, cooldown_at, count_pods,
  judge_pods, judge_list, judge_job, check_cooldown_period, check_pod_count, check_job_status,
  check_no_jobs_running, is_cluster_healthy_for_scaling,
}
use redis_foxtrot_autoscaler.Health.Counts.{runs, serves, count_pods-length}
use redis_foxtrot_autoscaler.Health.Sound.{NotBusy}

judge_job_passes : (name : String) (r : Response JobStatus) → NotBusy r → judge_job name r ≡ none
unfolding judge_job
judge_job_passes name (err not_found) h = refl
judge_job_passes name (err (failure n)) h = absurd h
judge_job_passes name (ok j) (over, unharmed) = rw (over, unharmed) refl

judge_pods_passes :
    (n : ℕ) (qs : List Pod)
    → n < half
    → length (select runs qs) ≡ n
    → length (select serves qs) ≡ n
    → judge_pods n (count_pods qs (0, 0)) ≡ none
unfolding judge_pods
judge_pods_passes n qs fits run ready =
    let (a, b) = count_pods-length qs 0 0 in ground (arith, a, b, run, ready)

module _ {F : Type 0} (p : Platform F) where
  -- The calls of a check that passes: the list of the pods, the standby, the two jobs.
  abbrev pub listed : RedisCluster → List Request → List Request
  listed c h = list_pods c.namespace (get_labels c) ∷ h

  abbrev pub found_up : RedisCluster → List Request → List Request
  found_up c h = looked_up p c (listed c h)

  abbrev pub checked : RedisCluster → List Request → List Request
  checked c h =
      get_job (key_in c (drain_name c)) ∷ get_job (key_in c (reshard_name c)) ∷ found_up c h

  -- A managed cluster that is as it should be, to a check that begins after the calls `h`.
  pub record IsReady (c : RedisCluster) (h : List Request) : Type 0 where
    pub cooled : cooldown_at (p.now h) c.status.last_scale_time c.spec.scale_cooldown_seconds ≡ none
    pub pods : List Pod
    pub listing : p.read_pods h c.namespace (get_labels c) ≡ ok pods
    pub fits : total_replicas c.spec < half
    pub running : length (select runs pods) ≡ total_replicas c.spec
    pub serving : length (select serves pods) ≡ total_replicas c.spec
    pub standby : IsUp p c (listed c h)
    pub known : c.status.standby_pod ≡ standby_pod_name c
    pub no_reshard : NotBusy (p.read_job (found_up c h) (key_in c (reshard_name c)))
    pub no_drain :
        NotBusy (
          p.read_job (get_job (key_in c (reshard_name c)) ∷ found_up c h) (key_in c (drain_name c)))
    pub unlocked : (c.status.is_draining || c.status.is_resharding) ≡ false

  passes :
      (m : Action (Option Error)) (delay : ℤ) (rest : Action ClusterHealthStatus) (s t : State)
      → m s ≡ (none, t)
      → or_unhealthy m delay rest s ≡ rest t
  passes m delay rest s t e = ap (λ (r : Option Error × State). resume_health delay rest r.0 r.1) e

  module _ (c : RedisCluster) (h : List Request) (r : IsReady c h) where
    abbrev at : List Request → State
    at calls = record { cluster = c; calls = calls }

    counted : check_pod_count p (at h) ≡ (none, at (listed c h))
    unfolding check_pod_count
    counted =
        ap (λ (o : Option Error). (o, at (listed c h)))
          (ap (judge_list (total_replicas c.spec)) r.listing
            ∙ judge_pods_passes (total_replicas c.spec) r.pods r.fits r.running r.serving)

    detected : detect_and_set_standby_pod p (at (listed c h)) ≡ (none, at (found_up c h))
    detected =
        standby_found p c (listed c h) r.standby
        ∙ ap (λ n. (none, record { cluster = noted c n; calls = found_up c h })) (sym r.known)

    settled : check_and_update_standby_pod p (at (listed c h)) ≡ (none, at (found_up c h))
    unfolding check_and_update_standby_pod
    settled =
        let old = c.status.standby_pod in
        ap (λ (x : Option Error × State). save_changed p old x.0 x.1) detected
        ∙ ap (λ (m : Action (Option Error)). m (at (found_up c h))) (if_true _ _ (str_eq_refl old))

    unoccupied : check_no_jobs_running p (at (found_up c h)) ≡ (none, at (checked c h))
    unfolding check_no_jobs_running check_job_status
    unoccupied =
        let s = at (get_job (key_in c (reshard_name c)) ∷ found_up c h) in
        ap (λ o. then_drain p c o s) (judge_job_passes (reshard_name c) _ r.no_reshard)
        ∙ ap (λ (o : Option Error). (o, at (checked c h)))
            (judge_job_passes (drain_name c) _ r.no_drain)

  -- A managed cluster is declared healthy, with four calls and the object as it was, if the
  -- cooldown is over, an int32 can count its pods, the expected number of them runs and has every
  -- container ready, the standby named in the status is the pod at the standby's index and is up,
  -- no reshard or drain job is in progress or has failed, and neither is marked in the status.
  pub ready_is_healthy :
      (s : State)
      → IsReady s.cluster s.calls
      → is_cluster_healthy_for_scaling p s ≡ (
        record { is_healthy = true; reason = passed; requeue_after = pos 0 },
        record s { calls = checked s.cluster s.calls },
      )
  unfolding is_cluster_healthy_for_scaling check_cooldown_period
  ready_is_healthy s r =
      let c = s.cluster in
      let h = s.calls in
      passes (check_cooldown_period p) _ _ s s (ap (λ (o : Option Error). (o, s)) r.cooled)
      ∙ passes (check_pod_count p) _ _ s _ (counted c h r)
      ∙ passes (check_and_update_standby_pod p) _ _ _ _ (settled c h r)
      ∙ passes (check_no_jobs_running p) _ _ _ _ (unoccupied c h r)
      ∙ ap (λ (x : ClusterHealthStatus). (x, record s { calls = checked c h }))
          (if_false _ _ r.unlocked)
