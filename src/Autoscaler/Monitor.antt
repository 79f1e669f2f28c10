-- ===== src/Autoscaler/Monitor.antt =====
-- What a round of `monitorMetrics` may start, and on which grounds.
use mathlib.Core.Path.{subst}
use redis_foxtrot_autoscaler.Prelude.{
  ◌≡◌, refl, ap, sym, ltb, length, select, ◌⊎◌, inl, inr, Bool-cases, Option, none, some, List, [],
  ◌∷◌,
}
use redis_foxtrot_autoscaler.Prelude.Int.{ℤ}
use redis_foxtrot_autoscaler.Cluster.{RedisCluster}
use redis_foxtrot_autoscaler.Jobs.{reshard_name}
use redis_foxtrot_autoscaler.Kube.{
  State, Platform, PodLoad, UpdateLaws, Request, get_job, fetch_job, key_in, seconds,
}
use redis_foxtrot_autoscaler.Health.{is_cluster_healthy_for_scaling, running_job}
use redis_foxtrot_autoscaler.Health.Sound.{IsFit, healthy-IsFit}
use redis_foxtrot_autoscaler.Health.Effects.{NotesStandby, health-NotesStandby}
use redis_foxtrot_autoscaler.Metrics.{Fallible, got, failed, query_pod_metrics}
use redis_foxtrot_autoscaler.Metrics.Effects.{query_pod_metrics-cluster}
use redis_foxtrot_autoscaler.Metrics.Measured.{IsMeasured, queried, asked, got-IsMeasured}
use redis_foxtrot_autoscaler.Cluster.Index.{last_master_name}
use redis_foxtrot_autoscaler.Decision.{Reason, check_scale_up, check_scale_down}
use redis_foxtrot_autoscaler.Trigger.{
  start_resharding, start_draining, destinations, sorted_masters, is_master_load,
  trigger_scale_down,
}
use redis_foxtrot_autoscaler.Trigger.Effects.{
  SavesStatus, trigger_scale_up-status, trigger_scale_down-drains, trigger_scale_up-calls,
  trigger_scale_down-calls,
}
use redis_foxtrot_autoscaler.Health.{is_job_running}
use redis_foxtrot_autoscaler.Autoscaler.{
  down_or_wait, up_or_down, decide, on_metrics, when_idle, monitor_metrics,
}

-- The calls before the queries, in a round whose health check ends in the state `t`.
abbrev pub before_queries : RedisCluster → State → List Request
before_queries c t = get_job (key_in c (reshard_name c)) ∷ t.calls

module _ {F : Type 0} (p : Platform F) where
  -- What a round does that asks for the metrics after the calls `h`: the loads are those that it
  -- measures, and what it starts is saved right after the two queries.
  pub data Chooses (c : RedisCluster) (h : List Request) (s' : State) : Type 0 where
    waits : s'.cluster.status ≡ c.status → Chooses c h s'
    grows :
        (ls : List (PodLoad F)) (t : PodLoad F) (why : Reason F)
        → IsMeasured p c h ls
        → check_scale_up p c.spec ls ≡ some (t, why)
        → SavesStatus
            (record { cluster = c; calls = queried c h })
            (start_resharding t.pod_name c.status)
            s'
        → Chooses c h s'
    shrinks :
        (ls : List (PodLoad F)) (why : Reason F)
        → IsMeasured p c h ls
        → check_scale_up p c.spec ls ≡ none
        → check_scale_down p c.spec ls ≡ some why
        → SavesStatus
            (record { cluster = c; calls = queried c h })
            (start_draining
              (last_master_name c)
              (destinations (last_master_name c) (sorted_masters p c ls))
              c.status)
            s'
        → Chooses c h s'

  module _ (laws : UpdateLaws p) (delay : ℤ) (s : State) where
    down-Chooses :
        (ls : List (PodLoad F)) (o : Option (Reason F))
        → IsMeasured p s.cluster s.calls ls
        → check_scale_up p s.cluster.spec ls ≡ none
        → check_scale_down p s.cluster.spec ls ≡ o
        → Chooses s.cluster s.calls (down_or_wait p delay ls o (asked p s)).1
    unfolding trigger_scale_down
    down-Chooses ls none m u d = waits refl
    down-Chooses ls (some why) m u d =
        elim (Bool-cases (ltb (length (select (is_master_load s.cluster) ls)) 2)) [
          | inl few ↦ waits (rw few refl)
          | inr enough ↦ shrinks ls why m u d (record {
            kept = trigger_scale_down-drains p laws ls (asked p s) enough;
            sent = trigger_scale_down-calls p ls (asked p s) enough;
          })
        ]

    up-Chooses :
        (ls : List (PodLoad F)) (o : Option (PodLoad F × Reason F))
        → IsMeasured p s.cluster s.calls ls
        → check_scale_up p s.cluster.spec ls ≡ o
        → Chooses s.cluster s.calls (up_or_down p delay ls o (asked p s)).1
    up-Chooses ls (some (t, why)) m u = grows ls t why m u (record {
      kept = trigger_scale_up-status p laws t (asked p s);
      sent = trigger_scale_up-calls p t (asked p s);
    })
    up-Chooses ls none m u = down-Chooses ls (check_scale_down p s.cluster.spec ls) m u refl

    metrics-Chooses :
        (r : Fallible (List (PodLoad F)))
        → (query_pod_metrics p s).0 ≡ r
        → Chooses s.cluster s.calls (on_metrics p delay r (query_pod_metrics p s).1).1
    unfolding decide
    metrics-Chooses (failed e) h =
        waits (ap (λ (c : RedisCluster). c.status) (query_pod_metrics-cluster p s))
    metrics-Chooses (got []) h =
        waits (ap (λ (c : RedisCluster). c.status) (query_pod_metrics-cluster p s))
    metrics-Chooses (got (l ∷ ls)) h =
        let (m, e) = got-IsMeasured p s (l ∷ ls) h in
        subst (λ t. Chooses s.cluster s.calls (on_metrics p delay (got (l ∷ ls)) t).1) (sym e)
          (up-Chooses (l ∷ ls) (check_scale_up p s.cluster.spec (l ∷ ls)) m refl)

  module _ (laws : UpdateLaws p) where
    idle-Chooses :
        (delay : ℤ) (s : State)
        → Chooses s.cluster (before_queries s.cluster s) (when_idle p delay s).1
    unfolding when_idle is_job_running
    idle-Chooses delay s =
        let k = key_in s.cluster (reshard_name s.cluster) in
        elim (Bool-cases (running_job (p.read_job s.calls k))) [
          | inl busy ↦ rw busy (waits refl)
          | inr free ↦ rw free (metrics-Chooses laws delay (fetch_job p k s).1 _ refl)
        ]

    -- A round of monitoring changes at most the standby in the status, or finds the cluster fit
    -- and starts at most what the loads justify that it joins from the answers to its own two
    -- queries, made after its health check and its look for a reshard job: a reshard for the pod
    -- that triggers a scale-up, or, only without such a pod, the drain of the last master. What it
    -- starts it sends, right after the queries. A successful update is taken to answer with what
    -- was sent.
    pub monitor_metrics_choice :
        (s : State)
        → let s' = (monitor_metrics p s).1 in
          let t = (is_cluster_healthy_for_scaling p s).1 in
          NotesStandby p s.cluster s'
          ⊎ (IsFit p s × Chooses s.cluster (before_queries s.cluster t) s')
    unfolding monitor_metrics
    monitor_metrics_choice s =
        let delay = seconds s.cluster.spec.metrics_query_interval in
        let t = (is_cluster_healthy_for_scaling p s).1 in
        elim (Bool-cases (is_cluster_healthy_for_scaling p s).0.is_healthy) [
          | inr sick ↦ inl (rw sick (health-NotesStandby p laws s))
          | inl healthy ↦
              let (fit, same) = healthy-IsFit p laws s healthy in
              inr (
                fit,
                rw healthy (
                    subst (λ c. Chooses c (before_queries c t) (when_idle p delay t).1) same
                      (idle-Chooses delay t)),
              )
        ]
