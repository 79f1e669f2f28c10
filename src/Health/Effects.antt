-- ===== src/Health/Effects.antt =====
-- What the health check does to the cluster object, whatever its answer.
use Prim.Native.Nat.{◌*◌}
use redis_foxtrot_autoscaler.Prelude.{◌≡◌, refl, ap, ◌∙◌, Option, none, some, String}
use redis_foxtrot_autoscaler.Prelude.Int.{ℤ, pos}
use redis_foxtrot_autoscaler.Errors.{Error}
use redis_foxtrot_autoscaler.Cluster.{RedisCluster}
use redis_foxtrot_autoscaler.Jobs.{reshard_name}
use redis_foxtrot_autoscaler.Kube.{
  Action, State, Platform, UpdateLaws, fetch_job, key_in, second, seconds,
}
use redis_foxtrot_autoscaler.Standby.{check_and_update_standby_pod}
use redis_foxtrot_autoscaler.Standby.Effects.{noted, check_and_update-Checks}
use redis_foxtrot_autoscaler.Health.{
  ClusterHealthStatus, resume_health, or_unhealthy, judge_job, check_cooldown_period,
  check_pod_count, check_job_status, then_drain, check_no_jobs_running, check_lock,
  is_cluster_healthy_for_scaling,
}

resume_health_cases {ℓ} :
    (P : State → Type ℓ) (delay : ℤ) (rest : Action ClusterHealthStatus) (o : Option Error)
    (s : State)
    → P s
    → P (rest s).1
    → P (resume_health delay rest o s).1
resume_health_cases P delay rest none s fails goes_on = goes_on
resume_health_cases P delay rest (some e) s fails goes_on = fails

module _ {F : Type 0} (p : Platform F) where
  drain_checked-cluster :
      (c : RedisCluster) (o : Option Error) (s : State) → (then_drain p c o s).1.cluster ≡ s.cluster
  unfolding check_job_status
  drain_checked-cluster c none s = refl
  drain_checked-cluster c (some e) s = refl

  jobs_checked-cluster : (s : State) → (check_no_jobs_running p s).1.cluster ≡ s.cluster
  unfolding check_no_jobs_running check_job_status
  jobs_checked-cluster s =
      let k = key_in s.cluster (reshard_name s.cluster) in
      drain_checked-cluster s.cluster (judge_job (reshard_name s.cluster) (p.read_job s.calls k))
        (fetch_job p k s).1

  -- The status afterwards is the one before, but for the standby.
  abbrev pub NotesStandby : RedisCluster → State → Type 0
  NotesStandby c t = (pod : String) × (t.cluster.status ≡ (noted c pod).status)

  unchanged : (c : RedisCluster) (s : State) → s.cluster ≡ c → NotesStandby c s
  unchanged c s e = (c.status.standby_pod, ap (λ (x : RedisCluster). x.status) e)

  module _ (laws : UpdateLaws p) where
    -- The health check changes at most the standby of the status.
    pub health-NotesStandby :
        (s : State) → NotesStandby s.cluster (is_cluster_healthy_for_scaling p s).1
    unfolding is_cluster_healthy_for_scaling check_cooldown_period check_pod_count
    health-NotesStandby s =
        let delay = seconds s.cluster.spec.metrics_query_interval in
        let lock = check_lock p delay in
        let jobs = or_unhealthy (check_no_jobs_running p) delay lock in
        let standby = or_unhealthy (check_and_update_standby_pod p) (pos (10 * second)) jobs in
        let pods = or_unhealthy (check_pod_count p) delay standby in
        let Q = NotesStandby s.cluster in
        let t = (check_pod_count p s).1 in
        let u = (check_and_update_standby_pod p t).1 in
        let v = (check_no_jobs_running p u).1 in
        let c = check_and_update-Checks p laws t in
        let noted : Q u = (c.pod, c.status) in
        let still : Q v =
          (c.pod, ap (λ (x : RedisCluster). x.status) (jobs_checked-cluster u) ∙ c.status) in
        resume_health_cases Q delay pods (check_cooldown_period p s).0 s
          (unchanged s.cluster s refl)
          (resume_health_cases Q delay standby (check_pod_count p s).0 t
            (unchanged s.cluster t refl)
            (resume_health_cases Q (pos (10 * second)) jobs (check_and_update_standby_pod p t).0 u
              noted (resume_health_cases Q delay lock (check_no_jobs_running p u).0 v still still)))
