-- ===== src/Health/Writes.antt =====
-- A health check reads, and saves at most the status, with another standby.
use Prim.Native.Nat.{◌*◌}
use mathlib.Core.Path.{subst}
use redis_foxtrot_autoscaler.Prelude.{
  inl, inr, Bool-cases, Option, none, some, String, List, if_cases, any, sym,
}
use redis_foxtrot_autoscaler.Prelude.Text.{str_eq}
use redis_foxtrot_autoscaler.Prelude.Int.{ℤ, pos}
use redis_foxtrot_autoscaler.Errors.{Error, not_found, failure}
use redis_foxtrot_autoscaler.Cluster.{RedisCluster}
use redis_foxtrot_autoscaler.Cluster.Index.{standby_pod_name}
use redis_foxtrot_autoscaler.Jobs.{reshard_name, drain_name, get_labels}
use redis_foxtrot_autoscaler.Kube.{
  State, Action, Pod, Request, Response, ok, err, Platform, fetch_job, fetch_pod, fetch_pods,
  key_in, second, seconds, Reads, update_status, Sends, nothing, also, then-Sends,
}
use redis_foxtrot_autoscaler.Standby.{
  is_running, detect_existing, detect_managed, detect_and_set_standby_pod, save_changed,
  check_and_update_standby_pod,
}
use redis_foxtrot_autoscaler.Standby.Effects.{noted, detect-Detects}
use redis_foxtrot_autoscaler.Health.{
  ClusterHealthStatus, resume_health, or_unhealthy, judge_job, check_cooldown_period,
  check_pod_count, check_job_status, then_drain, check_no_jobs_running, check_lock,
  is_cluster_healthy_for_scaling,
}

module _ {F : Type 0} (p : Platform F) (R : Request → Type 0) (reads : Reads R) where
  abbrev Sent : State → State → Type 0
  Sent s s' = Sends R s.calls s'.calls

  detect_existing-Sends :
      (c : RedisCluster) (r : Response (List Pod)) (s : State) → Sent s (detect_existing c r s).1
  detect_existing-Sends c (err e) s = nothing
  detect_existing-Sends c (ok pods) s = elim (Bool-cases (str_eq c.status.standby_pod "")) [
    | inl missing ↦ rw missing nothing
    | inr known ↦ rw known nothing
  ]

  detect_managed-Sends :
      (name : String) (r : Response Pod) (s : State) → Sent s (detect_managed name r s).1
  detect_managed-Sends name (err not_found) s = nothing
  detect_managed-Sends name (err (failure n)) s = nothing
  detect_managed-Sends name (ok pod) s = elim (Bool-cases (is_running pod.phase)) [
    | inr down ↦ rw down nothing
    | inl up ↦ elim (Bool-cases (any (λ ready. ready) pod.container_ready)) [
      | inr busy ↦ rw (up, busy) nothing
      | inl ready ↦ rw (up, ready) nothing
    ]
  ]

  pub detect-Sends : (s : State) → Sent s (detect_and_set_standby_pod p s).1
  unfolding detect_and_set_standby_pod
  detect-Sends s =
      let c = s.cluster in
      let k = key_in c (standby_pod_name c) in
      if_cases {A = Action (Option Error)} (λ m. Sent s (m s).1) c.spec.existing_cluster _ _
        (λ _. then-Sends (also (reads.pods c.namespace c.spec.pod_selector) nothing) (
          detect_existing-Sends c (p.read_pods s.calls c.namespace c.spec.pod_selector)
            (fetch_pods p c.namespace c.spec.pod_selector s).1))
        (λ _.
          then-Sends (also (reads.pod k) nothing)
            (detect_managed-Sends (standby_pod_name c) (p.read_pod s.calls k) (fetch_pod p k s).1))

  then_drain-Sends :
      (c : RedisCluster) (o : Option Error) (s : State) → Sent s (then_drain p c o s).1
  unfolding check_job_status
  then_drain-Sends c (some e) s = nothing
  then_drain-Sends c none s = also (reads.job (key_in s.cluster (drain_name c))) nothing

  pub check_no_jobs-Sends : (s : State) → Sent s (check_no_jobs_running p s).1
  unfolding check_no_jobs_running check_job_status
  check_no_jobs-Sends s =
      let k = key_in s.cluster (reshard_name s.cluster) in
      then-Sends (also (reads.job k) nothing) (
        then_drain-Sends s.cluster (judge_job (reshard_name s.cluster) (p.read_job s.calls k))
          (fetch_job p k s).1)

  resume_health-Sends :
      (delay : ℤ) (rest : Action ClusterHealthStatus) (o : Option Error) (s : State)
      → Sent s (rest s).1
      → Sent s (resume_health delay rest o s).1
  resume_health-Sends delay rest none s m = m
  resume_health-Sends delay rest (some e) s m = nothing

  save_changed-Sends :
      (old : String) (o : Option Error) (s : State)
      → R (update_status s.cluster)
      → Sent s (save_changed p old o s).1
  save_changed-Sends old (some e) s r = nothing
  save_changed-Sends old none s r =
      if_cases {A = Action (Option Error)} (λ m. Sent s (m s).1)
        (str_eq s.cluster.status.standby_pod old) _ _ (λ _. nothing) (λ _. also r nothing)

  -- The only status that the checks save is the one with another standby.
  abbrev pub MayNote : RedisCluster → Type 0
  MayNote c = (pod : String) → R (update_status (noted c pod))

  check_and_update-Sends :
      (s : State) → MayNote s.cluster → Sent s (check_and_update_standby_pod p s).1
  unfolding check_and_update_standby_pod
  check_and_update-Sends s note =
      let d = detect-Detects p s in
      then-Sends (detect-Sends s) (
        save_changed-Sends s.cluster.status.standby_pod (detect_and_set_standby_pod p s).0
          (detect_and_set_standby_pod p s).1
          (subst (λ c. R (update_status c)) (sym d.result) (note d.pod)))

  pub health-Sends : (s : State) → MayNote s.cluster → Sent s (is_cluster_healthy_for_scaling p s).1
  unfolding is_cluster_healthy_for_scaling check_cooldown_period check_pod_count
  health-Sends s note =
      let delay = seconds s.cluster.spec.metrics_query_interval in
      let lock = check_lock p delay in
      let jobs = or_unhealthy (check_no_jobs_running p) delay lock in
      let standby = or_unhealthy (check_and_update_standby_pod p) (pos (10 * second)) jobs in
      let pods = or_unhealthy (check_pod_count p) delay standby in
      let t = (check_pod_count p s).1 in
      let u = (check_and_update_standby_pod p t).1 in
      let v = (check_no_jobs_running p u).1 in
      resume_health-Sends delay pods (check_cooldown_period p s).0 s (
        then-Sends (also (reads.pods s.cluster.namespace (get_labels s.cluster)) nothing) (
          resume_health-Sends delay standby (check_pod_count p s).0 t (
            then-Sends (check_and_update-Sends t note) (
              resume_health-Sends (pos (10 * second)) jobs (check_and_update_standby_pod p t).0 u (
                then-Sends (check_no_jobs-Sends u)
                  (resume_health-Sends delay lock (check_no_jobs_running p u).0 v nothing))))))
