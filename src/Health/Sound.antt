-- ===== src/Health/Sound.antt =====
-- What a healthy answer means: every check that the method names has passed in this round.
use Prim.Native.Nat.{◌*◌}
use mathlib.Core.Path.{subst}
use redis_foxtrot_autoscaler.Prelude.{
  ℕ, ◌≡◌, ◌⊎◌, refl, ap, ◌∙◌, inl, inr, true, false, ◌||◌, Bool-cases, Option, none, some, List,
  ◌∷◌, String, arith, length, select,
}
use redis_foxtrot_autoscaler.Prelude.Int.{ℤ, pos}
use redis_foxtrot_autoscaler.Prelude.Int32.{lt32}
use redis_foxtrot_autoscaler.Errors.{Error, not_found, failure}
use redis_foxtrot_autoscaler.Cluster.{RedisCluster}
use redis_foxtrot_autoscaler.Cluster.Index.{standby_pod_name, total_replicas}
use redis_foxtrot_autoscaler.Jobs.{get_labels, reshard_name, drain_name}
use redis_foxtrot_autoscaler.Kube.{
  Action, State, Pod, fetch_job, get_job, JobStatus, Request, Response, ok, err, Platform,
  UpdateLaws, key_in, second, seconds,
}
use redis_foxtrot_autoscaler.Standby.{check_and_update_standby_pod}
use redis_foxtrot_autoscaler.Standby.Effects.{check_and_update-Checks}
use redis_foxtrot_autoscaler.Health.{
  ClusterHealthStatus, resume_health, or_unhealthy, cooldown_at, judge_list, judge_job, is_active,
  check_cooldown_period, check_pod_count, check_job_status, then_drain, check_no_jobs_running,
  check_lock, is_cluster_healthy_for_scaling,
}
use redis_foxtrot_autoscaler.Health.Counts.{runs, serves, pods_counted}

-- No job of the name exists, or it has ended without a failure.
abbrev pub NotBusy : Response JobStatus → Type 0
NotBusy (err not_found) = Unit
NotBusy (err (failure n)) = ⊥
NotBusy (ok j) = (is_active j ≡ false) × (lt32 0 j.failed ≡ false)

-- The conditions of a scaling decision, as the answers of the round show them.
pub record IsFit {F : Type 0} (p : Platform F) (s : State) : Type 0 where
  pub cooled :
      cooldown_at
        (p.now s.calls)
        s.cluster.status.last_scale_time
        s.cluster.spec.scale_cooldown_seconds
      ≡ none
  pub counted :
      (qs : List Pod) × (p.read_pods s.calls s.cluster.namespace (get_labels s.cluster) ≡ ok qs)
      × (length (select runs qs) ≡ total_replicas s.cluster.spec)
      × (length (select serves qs) ≡ total_replicas s.cluster.spec)
  pub standby :
      (s.cluster.spec.existing_cluster ≡ true)
      ⊎ (s.cluster.status.standby_pod ≡ standby_pod_name s.cluster)
  -- the last two requests of the check ask for the jobs
  pub idle :
      let reshard = key_in s.cluster (reshard_name s.cluster) in
      let drain = key_in s.cluster (drain_name s.cluster) in
      (h : List Request) × NotBusy (p.read_job h reshard)
      × NotBusy (p.read_job (get_job reshard ∷ h) drain)
      × ((is_cluster_healthy_for_scaling p s).1.calls ≡ get_job drain ∷ get_job reshard ∷ h)
  pub unlocked : (s.cluster.status.is_draining || s.cluster.status.is_resharding) ≡ false

passed_check :
    (delay : ℤ) (rest : Action ClusterHealthStatus) (o : Option Error) (s : State)
    → (resume_health delay rest o s).0.is_healthy ≡ true
    → (o ≡ none) × ((rest s).0.is_healthy ≡ true) × ((resume_health delay rest o s).1 ≡ (rest s).1)
passed_check delay rest none s h = (refl, h, refl)
passed_check delay rest (some e) s h = cc

judge_list_sound :
    (expected : ℕ) (r : Response (List Pod))
    → judge_list expected r ≡ none
    → (qs : List Pod) × (r ≡ ok qs)
      × (length (select runs qs) ≡ expected)
      × (length (select serves qs) ≡ expected)
judge_list_sound expected (err e) h = cc
judge_list_sound expected (ok qs) h = let (m, n) = pods_counted expected qs h in (qs, refl, m, n)

judge_job_sound : (name : String) (r : Response JobStatus) → judge_job name r ≡ none → NotBusy r
unfolding judge_job
judge_job_sound name (err not_found) h = tt
judge_job_sound name (err (failure n)) h = cc
judge_job_sound name (ok j) h = (ground arith, ground arith)

module _ {F : Type 0} (p : Platform F) where
  lock_open :
      (delay : ℤ) (s : State)
      → (check_lock p delay s).0.is_healthy ≡ true
      → ((s.cluster.status.is_draining || s.cluster.status.is_resharding) ≡ false)
        × ((check_lock p delay s).1 ≡ s)
  lock_open delay s h =
      elim (Bool-cases (s.cluster.status.is_draining || s.cluster.status.is_resharding)) [
        | inl held ↦ cc
        | inr free ↦ (free, refl)
      ]

  drain_checked :
      (s : State) (o : Option Error)
      → let drain = key_in s.cluster (drain_name s.cluster) in
        (then_drain p s.cluster o s).0 ≡ none
        → (o ≡ none)
          × NotBusy (p.read_job s.calls drain)
          × ((then_drain p s.cluster o s).1 ≡ record s { calls = get_job drain ∷ s.calls })
  unfolding check_job_status
  drain_checked s (some e) h = cc
  drain_checked s none h =
      let name = drain_name s.cluster in
      (refl, judge_job_sound name (p.read_job s.calls (key_in s.cluster name)) h, refl)

  no_jobs :
      (s : State)
      → let reshard = key_in s.cluster (reshard_name s.cluster) in
        let drain = key_in s.cluster (drain_name s.cluster) in
        (check_no_jobs_running p s).0 ≡ none
        → NotBusy (p.read_job s.calls reshard)
          × NotBusy (p.read_job (get_job reshard ∷ s.calls) drain)
          × ((check_no_jobs_running p s).1
              ≡ record s { calls = get_job drain ∷ get_job reshard ∷ s.calls })
  unfolding check_no_jobs_running check_job_status
  no_jobs s h =
      let name = reshard_name s.cluster in
      let k = key_in s.cluster name in
      let r = p.read_job s.calls k in
      let (passed, drain, same) = drain_checked (fetch_job p k s).1 (judge_job name r) h in
      (judge_job_sound name r passed, drain, same)

  module _ (laws : UpdateLaws p) where
    -- The cluster is declared healthy only if the cooldown is over, the list of pods, the first
    -- request of the check, has exactly the expected number of running and of ready pods, the
    -- standby of a managed cluster is the pod at the standby's index, the last two requests of the
    -- check find neither a reshard nor a drain job in progress or failed, and neither a drain nor
    -- a reshard is marked in the status; and then the object is unchanged. A successful update is
    -- taken to answer with what was sent.
    pub healthy-IsFit :
        (s : State)
        → (is_cluster_healthy_for_scaling p s).0.is_healthy ≡ true
        → IsFit p s × ((is_cluster_healthy_for_scaling p s).1.cluster ≡ s.cluster)
    unfolding is_cluster_healthy_for_scaling check_cooldown_period check_pod_count
    healthy-IsFit s h =
        let delay = seconds s.cluster.spec.metrics_query_interval in
        let lock = check_lock p delay in
        let jobs = or_unhealthy (check_no_jobs_running p) delay lock in
        let standby = or_unhealthy (check_and_update_standby_pod p) (pos (10 * second)) jobs in
        let pods = or_unhealthy (check_pod_count p) delay standby in
        let (cooled, h1, e1) = passed_check delay pods (check_cooldown_period p s).0 s h in
        let t = (check_pod_count p s).1 in
        let (counted, h2, e2) = passed_check delay standby (check_pod_count p s).0 t h1 in
        let u = (check_and_update_standby_pod p t).1 in
        let (settled, h3, e3) =
          passed_check (pos (10 * second)) jobs (check_and_update_standby_pod p t).0 u h2 in
        let v = (check_no_jobs_running p u).1 in
        let (idle, h4, e4) = passed_check delay lock (check_no_jobs_running p u).0 v h3 in
        let c = check_and_update-Checks p laws t in
        let same = c.settled settled in
        let (qs, answer, runners, ready) =
          judge_list_sound (total_replicas s.cluster.spec)
            (p.read_pods s.calls s.cluster.namespace (get_labels s.cluster)) counted in
        let (no_reshard, no_drain, kept) = no_jobs u idle in
        let (unlocked, h5) = lock_open delay v h4 in
        (
          record {
            cooled = cooled;
            counted = (qs, answer, runners, ready);
            standby = elim (Bool-cases s.cluster.spec.existing_cluster) [
              | inl existing ↦ inl existing
              | inr managed ↦ inr (c.named managed settled)
            ];
            idle =
                subst
                  (λ c.
                    let reshard = key_in c (reshard_name c) in
                    let drain = key_in c (drain_name c) in
                    (h : List Request) × NotBusy (p.read_job h reshard)
                    × NotBusy (p.read_job (get_job reshard ∷ h) drain)
                    × ((is_cluster_healthy_for_scaling p s).1.calls
                        ≡ get_job drain ∷ get_job reshard ∷ h))
                  same
                  (
                    u.calls,
                    no_reshard,
                    no_drain,
                    ap (λ (x : State). x.calls) (e1 ∙ e2 ∙ e3 ∙ e4 ∙ kept),
                  );
            unlocked =
                subst
                  (λ (c : RedisCluster). (c.status.is_draining || c.status.is_resharding) ≡ false)
                  (ap (λ (x : State). x.cluster) kept ∙ same) unlocked;
          },
          ap (λ (x : State). x.cluster) (e1 ∙ e2 ∙ e3 ∙ e4 ∙ kept) ∙ same,
        )
