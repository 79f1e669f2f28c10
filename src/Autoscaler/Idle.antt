-- ===== src/Autoscaler/Idle.antt =====
-- What a round of monitoring sends after a healthy answer: the metrics, and a status with which a
-- scaling starts.
use redis_foxtrot_autoscaler.Prelude.{
  ap, ◌∙◌, ◌≡◌, inl, inr, Bool-cases, if_cases, Option, none, some, List, [], ◌∷◌, String, ltb,
  length, select,
}
use redis_foxtrot_autoscaler.Prelude.Int.{ℤ, pos}
use redis_foxtrot_autoscaler.Errors.{ApiError}
use redis_foxtrot_autoscaler.Cluster.{RedisCluster, RedisClusterStatus}
use redis_foxtrot_autoscaler.Cluster.Index.{last_master_name}
use redis_foxtrot_autoscaler.Jobs.{reshard_name}
use redis_foxtrot_autoscaler.Kube.{
  State, Action, Outcome, Request, PodLoad, Platform, fetch_job, key_in, run_query, second,
  put_status, or_else_cases, modify_status, fail_api, pure, after, Sends, Reads, update_status,
  nothing, also, then-Sends,
}
use redis_foxtrot_autoscaler.Health.{is_job_running, running_job}
use redis_foxtrot_autoscaler.Metrics.{
  Fallible, got, failed, cpu_text, memory_text, query_cpu_metrics, query_memory_metrics, with_cpu,
  with_client, query_pod_metrics,
}
use redis_foxtrot_autoscaler.Metrics.Effects.{query_pod_metrics-cluster}
use redis_foxtrot_autoscaler.Decision.{Reason, check_scale_up, check_scale_down}
use redis_foxtrot_autoscaler.Trigger.{
  start_resharding, start_draining, is_master_load, destinations, sorted_masters, trigger_scale_up,
  trigger_scale_down,
}
use redis_foxtrot_autoscaler.Autoscaler.{down_or_wait, up_or_down, decide, on_metrics, when_idle}

module _ {F : Type 0} (p : Platform F) (R : Request → Type 0) (reads : Reads R)
    (st : RedisClusterStatus) where
  abbrev Sent : State → State → Type 0
  Sent s s' = Sends R s.calls s'.calls

  -- The two statuses with which a scaling starts may be saved.
  pub record MayScale : Type 0 where
    pub up :
        (c : RedisCluster) (pod : String) → c.status ≡ start_resharding pod st → R (update_status c)
    pub down :
        (c : RedisCluster) (pod : String) (dests : String × String)
        → c.status ≡ start_draining pod dests st
        → R (update_status c)

  with_cpu-Sends :
      (c : RedisCluster) (r : Fallible (List (String × F))) (s : State)
      → Sent s (with_cpu p c r s).1
  unfolding query_memory_metrics
  with_cpu-Sends c (failed e) s = nothing
  with_cpu-Sends c (got cpu) s = also (reads.metrics (memory_text s.cluster)) nothing

  with_client-Sends :
      (c : RedisCluster) (o : Option ApiError) (s : State) → Sent s (with_client p c o s).1
  unfolding query_cpu_metrics
  with_client-Sends c (some e) s = nothing
  with_client-Sends c none s =
      then-Sends (also (reads.metrics (cpu_text s.cluster)) nothing)
        (with_cpu-Sends c (query_cpu_metrics p s).0 (run_query p (cpu_text s.cluster) s).1)

  module _ (may : MayScale) where
    trigger_scale_down-Sends :
        (ls : List (PodLoad F)) (s : State)
        → s.cluster.status ≡ st
        → Sent s (trigger_scale_down p ls s).1
    unfolding trigger_scale_down
    trigger_scale_down-Sends ls s same =
        let pod = last_master_name s.cluster in
        let dests = destinations pod (sorted_masters p s.cluster ls) in
        let s' = (modify_status (start_draining pod dests) s).1 in
        let sent = may.down s'.cluster pod dests (ap (start_draining pod dests) same) in
        if_cases {A = Action Outcome} (λ m. Sent s (m s).1)
          (ltb (length (select (is_master_load s.cluster) ls)) 2) _ _ (λ _. nothing)
          (λ _.
            or_else_cases (Sent s) (put_status p) fail_api (pure (after (pos second)))
              (modify_status (start_draining pod dests) s).1 (also sent nothing)
              (also sent nothing))

    down_or_wait-Sends :
        (delay : ℤ) (ls : List (PodLoad F)) (o : Option (Reason F)) (s : State)
        → s.cluster.status ≡ st
        → Sent s (down_or_wait p delay ls o s).1
    down_or_wait-Sends delay ls none s same = nothing
    down_or_wait-Sends delay ls (some why) s same = trigger_scale_down-Sends ls s same

    up_or_down-Sends :
        (delay : ℤ) (ls : List (PodLoad F)) (o : Option (PodLoad F × Reason F)) (s : State)
        → s.cluster.status ≡ st
        → Sent s (up_or_down p delay ls o s).1
    unfolding trigger_scale_up
    up_or_down-Sends delay ls (some (t, why)) s same =
        let s' = (modify_status (start_resharding t.pod_name) s).1 in
        let sent = may.up s'.cluster t.pod_name (ap (start_resharding t.pod_name) same) in
        or_else_cases (Sent s) (put_status p) fail_api (pure (after (pos second))) s'
          (also sent nothing) (also sent nothing)
    up_or_down-Sends delay ls none s same =
        down_or_wait-Sends delay ls (check_scale_down p s.cluster.spec ls) s same

    on_metrics-Sends :
        (delay : ℤ) (r : Fallible (List (PodLoad F))) (s : State)
        → s.cluster.status ≡ st
        → Sent s (on_metrics p delay r s).1
    unfolding decide
    on_metrics-Sends delay (failed e) s e0 = nothing
    on_metrics-Sends delay (got []) s same = nothing
    on_metrics-Sends delay (got (l ∷ ls)) s same =
        up_or_down-Sends delay (l ∷ ls) (check_scale_up p s.cluster.spec (l ∷ ls)) s same

    measured-Sends :
        (delay : ℤ) (s : State)
        → s.cluster.status ≡ st
        → Sent s (on_metrics p delay (query_pod_metrics p s).0 (query_pod_metrics p s).1).1
    unfolding query_pod_metrics
    measured-Sends delay s same =
        then-Sends (with_client-Sends s.cluster (p.new_client s.cluster.spec.prometheus_url) s) (
          on_metrics-Sends delay (query_pod_metrics p s).0 (query_pod_metrics p s).1
            (ap (λ (c : RedisCluster). c.status) (query_pod_metrics-cluster p s) ∙ same))

    pub when_idle-Sends :
        (delay : ℤ) (s : State) → s.cluster.status ≡ st → Sent s (when_idle p delay s).1
    unfolding when_idle is_job_running
    when_idle-Sends delay s same =
        let k = key_in s.cluster (reshard_name s.cluster) in
        elim (Bool-cases (running_job (p.read_job s.calls k))) [
          | inl busy ↦ rw busy (also (reads.job k) nothing)
          | inr free ↦ rw free (
              then-Sends (also (reads.job k) nothing)
                (measured-Sends delay (fetch_job p k s).1 same))
        ]
