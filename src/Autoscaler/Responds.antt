-- ===== src/Autoscaler/Responds.antt =====
-- What monitoring does about the loads: on a cluster that is as it should be, a pod over a threshold starts
-- a reshard, and pods to spare start a drain.
use mathlib.Core.Path.{subst}
use redis_foxtrot_autoscaler.Prelude.{
  ◌≡◌, ◌∙◌, refl, sym, ap, true, false, Option, none, some, List, ◌∷◌, any, arith, if_false, ltb,
  le→ltb, ◌≤◌, length, select,
}
use redis_foxtrot_autoscaler.Prelude.Int.{ℤ}
use redis_foxtrot_autoscaler.Cluster.{RedisCluster, RedisClusterStatus}
use redis_foxtrot_autoscaler.Cluster.Index.{last_master_name}
use redis_foxtrot_autoscaler.Jobs.{reshard_name}
use redis_foxtrot_autoscaler.Kube.{
  State, Action, Outcome, Platform, PodLoad, UpdateLaws, get_job, key_in, seconds,
}
use redis_foxtrot_autoscaler.Health.{ClusterHealthStatus, running_job, is_job_running}
use redis_foxtrot_autoscaler.Health.Complete.{IsReady, checked, ready_is_healthy}
use redis_foxtrot_autoscaler.Metrics.{got, query_pod_metrics}
use redis_foxtrot_autoscaler.Metrics.Effects.{query_pod_metrics-cluster}
use redis_foxtrot_autoscaler.Decision.{Reason, is_overloaded, check_scale_up, check_scale_down}
use redis_foxtrot_autoscaler.Decision.ScaleUp.{is_some, check_scale_up_iff}
use redis_foxtrot_autoscaler.Trigger.{
  start_resharding, start_draining, is_master_load, destinations, sorted_masters,
}
use redis_foxtrot_autoscaler.Trigger.Effects.{
  SavesStatus, trigger_scale_up-status, trigger_scale_down-drains, trigger_scale_up-calls,
  trigger_scale_down-calls,
}
use redis_foxtrot_autoscaler.Autoscaler.{
  decide, on_metrics, when_healthy, when_idle, monitor_metrics, handle_auto_scaling, up_or_down,
  down_or_wait,
}
use redis_foxtrot_autoscaler.Autoscaler.Machine.{phase, monitoring}

monitoring_flags :
    (st : RedisClusterStatus)
    → phase st ≡ monitoring
    → (st.is_draining ≡ false) × (st.is_resharding ≡ false) × (st.is_provisioning_standby ≡ false)
unfolding phase
monitoring_flags st h = ground arith

is_some-cases : {A : Type 0} (o : Option A) → is_some o ≡ true → (a : A) × (o ≡ some a)
is_some-cases none h = cc
is_some-cases (some a) h = (a, refl)

module _ {F : Type 0} (p : Platform F) where
  abbrev drain_status : RedisCluster → List (PodLoad F) → RedisClusterStatus
  drain_status c ls =
      start_draining (last_master_name c)
        (destinations (last_master_name c) (sorted_masters p c ls)) c.status

  -- The state in which the metrics are asked for.
  abbrev pub before_metrics : State → State
  before_metrics s = record s {
    calls = get_job (key_in s.cluster (reshard_name s.cluster)) ∷ checked p s.cluster s.calls;
  }

  -- The round measures these loads, and no reshard job is in its way.
  pub record Measures (s : State) (ls : List (PodLoad F)) : Type 0 where
    pub ready : IsReady p s.cluster s.calls
    pub monitors : phase s.cluster.status ≡ monitoring
    pub free :
        running_job
          (p.read_job (checked p s.cluster s.calls) (key_in s.cluster (reshard_name s.cluster)))
        ≡ false
    pub loads : (query_pod_metrics p (before_metrics s)).0 ≡ got ls

  -- The state in which the round decides.
  abbrev pub measured : State → State
  measured s = (query_pod_metrics p (before_metrics s)).1

  abbrev delay_of : State → ℤ
  delay_of s = seconds s.cluster.spec.metrics_query_interval

  idle_round :
      (s : State) (l : PodLoad F) (ls : List (PodLoad F))
      → Measures s (l ∷ ls)
      → let t = record s { calls = checked p s.cluster s.calls } in
        when_idle p (delay_of s) t ≡ decide p (delay_of s) (l ∷ ls) (measured s)
  unfolding when_idle is_job_running
  idle_round s l ls m =
      ap (λ (a : Action Outcome). a (before_metrics s)) (if_false _ _ m.free)
      ∙ ap (λ r. on_metrics p (delay_of s) r (measured s)) m.loads

  round_decides :
      (s : State) (l : PodLoad F) (ls : List (PodLoad F))
      → Measures s (l ∷ ls)
      → handle_auto_scaling p s ≡ decide p (delay_of s) (l ∷ ls) (measured s)
  unfolding handle_auto_scaling monitor_metrics
  round_decides s l ls m =
      let (nd, nr, nv) = monitoring_flags s.cluster.status m.monitors in
      ap (λ (a : Action Outcome). a s) (if_false _ _ nd ∙ if_false _ _ nr ∙ if_false _ _ nv)
      ∙ ap (λ (x : ClusterHealthStatus × State). when_healthy p (delay_of s) x.0 x.1)
          (ready_is_healthy p s m.ready)
      ∙ idle_round s l ls m

  module _ (laws : UpdateLaws p) where
    decide-grows :
        (delay : ℤ) (ls : List (PodLoad F)) (s : State) (t : PodLoad F) (why : Reason F)
        → check_scale_up p s.cluster.spec ls ≡ some (t, why)
        → SavesStatus s (start_resharding t.pod_name s.cluster.status) (decide p delay ls s).1
    unfolding decide
    decide-grows delay ls s t why u =
        let goal = λ (o : Option (PodLoad F × Reason F)).
          SavesStatus s (start_resharding t.pod_name s.cluster.status)
            (up_or_down p delay ls o s).1 in
        subst goal (sym u) (record {
          kept = trigger_scale_up-status p laws t s;
          sent = trigger_scale_up-calls p t s;
        })

    decide-shrinks :
        (delay : ℤ) (ls : List (PodLoad F)) (s : State) (why : Reason F)
        → let c = s.cluster in
          check_scale_up p c.spec ls ≡ none
          → check_scale_down p c.spec ls ≡ some why
          → ltb (length (select (is_master_load c) ls)) 2 ≡ false
          → SavesStatus s (drain_status c ls) (decide p delay ls s).1
    unfolding decide
    decide-shrinks delay ls s why u d enough =
        let st' = drain_status s.cluster ls in
        subst (λ o. SavesStatus s st' (up_or_down p delay ls o s).1) (sym u)
          (subst (λ o. SavesStatus s st' (down_or_wait p delay ls o s).1) (sym d)
            (record {
              kept = trigger_scale_down-drains p laws ls s enough;
              sent = trigger_scale_down-calls p ls s enough;
            }))

    -- On a managed cluster that is as the health check wants it and in monitoring, with no reshard
    -- job in its way, a round that measures loads of which one is over a threshold starts a
    -- reshard for the pod that the decision names: the object in memory has the status of the
    -- reshard, and a status update with it is the one thing sent after the metrics. A successful
    -- update is taken to answer with what was sent.
    pub overload_starts_reshard :
        (s : State) (l : PodLoad F) (ls : List (PodLoad F))
        → Measures s (l ∷ ls)
        → any (is_overloaded p s.cluster.spec) (l ∷ ls) ≡ true
        → (t : PodLoad F) × (why : Reason F) × (check_scale_up p s.cluster.spec (l ∷ ls)
            ≡ some (t, why))
          × SavesStatus
              (record s { calls = (measured s).calls })
              (start_resharding t.pod_name s.cluster.status)
              (handle_auto_scaling p s).1
    overload_starts_reshard s l ls m over =
        let c = s.cluster in
        let ((t, why), u) = is_some-cases _ (check_scale_up_iff p c.spec (l ∷ ls) ∙ over) in
        let same = query_pod_metrics-cluster p (before_metrics s) in
        let goal = λ (x : RedisCluster).
          SavesStatus (record { cluster = x; calls = (measured s).calls })
            (start_resharding t.pod_name x.status) (handle_auto_scaling p s).1 in
        (
          t,
          why,
          u,
          subst goal same (
              subst
                (λ (r : Outcome × State).
                  SavesStatus (measured s) (start_resharding t.pod_name (measured s).cluster.status)
                    r.1)
                (sym (round_decides s l ls m))
                (decide-grows (delay_of s) (l ∷ ls) (measured s) t why
                  (ap (λ (x : RedisCluster). check_scale_up p x.spec (l ∷ ls)) same ∙ u))),
        )

    quiet : {A : Type 0} (o : Option A) → is_some o ≡ false → o ≡ none
    quiet none h = refl
    quiet (some a) h = cc

    -- On a managed cluster that is as the health check wants it and in monitoring, with no reshard
    -- job in its way, a round that measures loads of which none is over a threshold, that calls
    -- for a scale-down and that counts two masters, starts to drain the last master to the
    -- destinations that are chosen: the object in memory has the status of the drain, and a status
    -- update with it is the one thing sent after the metrics. A successful update is taken to
    -- answer with what was sent.
    pub spare_pods_start_drain :
        (s : State) (l : PodLoad F) (ls : List (PodLoad F))
        → let c = s.cluster in
          Measures s (l ∷ ls)
          → any (is_overloaded p c.spec) (l ∷ ls) ≡ false
          → is_some (check_scale_down p c.spec (l ∷ ls)) ≡ true
          → 2 ≤ length (select (is_master_load c) (l ∷ ls))
          → SavesStatus
              (record s { calls = (measured s).calls })
              (start_draining
                (last_master_name c)
                (destinations (last_master_name c) (sorted_masters p c (l ∷ ls)))
                c.status)
              (handle_auto_scaling p s).1
    spare_pods_start_drain s l ls m calm spare two =
        let c = s.cluster in
        let up = quiet _ (check_scale_up_iff p c.spec (l ∷ ls) ∙ calm) in
        let (why, down) = is_some-cases _ spare in
        let same = query_pod_metrics-cluster p (before_metrics s) in
        let few = λ (x : RedisCluster). ltb (length (select (is_master_load x) (l ∷ ls))) 2 in
        let goal = λ (x : RedisCluster).
          SavesStatus (record { cluster = x; calls = (measured s).calls }) (drain_status x (l ∷ ls))
            (handle_auto_scaling p s).1 in
        subst goal same (
          subst
            (λ (r : Outcome × State).
              SavesStatus (measured s) (drain_status (measured s).cluster (l ∷ ls)) r.1)
            (sym (round_decides s l ls m))
            (decide-shrinks (delay_of s) (l ∷ ls) (measured s) why
              (ap (λ (x : RedisCluster). check_scale_up p x.spec (l ∷ ls)) same ∙ up)
              (ap (λ (x : RedisCluster). check_scale_down p x.spec (l ∷ ls)) same ∙ down)
              (ap few same ∙ le→ltb (length (select (is_master_load c) (l ∷ ls))) 2 two)))
