-- ===== src/Autoscaler/Moves.antt =====
-- A round of `handleAutoScaling` is one move of the documented state machine.
use redis_foxtrot_autoscaler.Prelude.{◌≡◌, refl, ap, List, inl, inr, Bool-cases, if_cases}
use redis_foxtrot_autoscaler.Prelude.Int.{ℤ}
use redis_foxtrot_autoscaler.Cluster.{RedisCluster, RedisClusterStatus}
use redis_foxtrot_autoscaler.Kube.{
  State, Request, Action, Outcome, Platform, UpdateLaws, Reads, Sends, then-Sends, seconds,
}
use redis_foxtrot_autoscaler.Health.{is_cluster_healthy_for_scaling}
use redis_foxtrot_autoscaler.Health.Sound.{healthy-IsFit}
use redis_foxtrot_autoscaler.Health.Writes.{health-Sends}
use redis_foxtrot_autoscaler.Autoscaler.{when_idle}
use redis_foxtrot_autoscaler.Autoscaler.Idle.{when_idle-Sends}
use redis_foxtrot_autoscaler.Autoscaler.Round.{Saves, Round}
use redis_foxtrot_autoscaler.Reshard.Moves.{check_resharding_status-Round}
use redis_foxtrot_autoscaler.Provision.Moves.{check_provisioning_status-Round}
use redis_foxtrot_autoscaler.Drain.Moves.{check_drain_status-Round}
use redis_foxtrot_autoscaler.Autoscaler.{monitor_metrics, handle_auto_scaling}
use redis_foxtrot_autoscaler.Autoscaler.Monitor.{
  Chooses, waits, grows, shrinks, monitor_metrics_choice,
}
use redis_foxtrot_autoscaler.Autoscaler.Machine.{
  Move, stay, note_standby, scale_up, scale_down, phase, monitoring,
}

module _ {F : Type 0} (p : Platform F) (laws : UpdateLaws p) where
  chosen-Move :
      (c : RedisCluster) (asked : List Request) (s' : State)
      → phase c.status ≡ monitoring
      → Chooses p c asked s'
      → Move c.status s'.cluster.status
  chosen-Move c asked s' h (waits e) = stay e
  chosen-Move c asked s' h (grows ls t why m u e) = scale_up t.pod_name h e.kept
  chosen-Move c asked s' h (shrinks ls why m u d e) = scale_down _ _ h e.kept

  module _ {st : RedisClusterStatus} (phase_is : phase st ≡ monitoring) where
    Saves-Reads : Reads (Saves st)
    Saves-Reads = record { pods = λ ns ls. tt; pod = λ k. tt; job = λ k. tt; metrics = λ text. tt }

    health_saved :
        (s : State)
        → s.cluster.status ≡ st
        → Sends (Saves st) s.calls (is_cluster_healthy_for_scaling p s).1.calls
    health_saved s same = health-Sends p (Saves st) Saves-Reads s (λ pod.
        note_standby pod phase_is
          (ap (λ (x : RedisClusterStatus). record x { standby_pod = pod }) same))

    idle_saved :
        (delay : ℤ) (s : State)
        → s.cluster.status ≡ st
        → Sends (Saves st) s.calls (when_idle p delay s).1.calls
    idle_saved delay s same =
        when_idle-Sends p (Saves st) Saves-Reads st
          (record {
            up = λ c pod e. scale_up pod phase_is e;
            down = λ c pod dests e. scale_down pod dests phase_is e;
          })
          delay s same

  monitor_saved :
      (s : State)
      → phase s.cluster.status ≡ monitoring
      → Sends (Saves s.cluster.status) s.calls (monitor_metrics p s).1.calls
  unfolding monitor_metrics
  monitor_saved s h =
      let delay = seconds s.cluster.spec.metrics_query_interval in
      let t = (is_cluster_healthy_for_scaling p s).1 in
      elim (Bool-cases (is_cluster_healthy_for_scaling p s).0.is_healthy) [
        | inl healthy ↦
            let same = ap (λ (c : RedisCluster). c.status) (healthy-IsFit p laws s healthy).1 in
            rw healthy (then-Sends (health_saved h s refl) (idle_saved h delay t same))
        | inr sick ↦ rw sick (health_saved h s refl)
      ]

  monitor_metrics-Round :
      (s : State)
      → phase s.cluster.status ≡ monitoring
      → Round s.cluster.status s.calls (monitor_metrics p s).1
  monitor_metrics-Round s h = record {
    move = elim (monitor_metrics_choice p laws s) [
      | inl (pod, e) ↦ note_standby pod h e
      | inr (fit, c) ↦ chosen-Move s.cluster _ (monitor_metrics p s).1 h c
    ];
    sent = monitor_saved s h;
  }

  pub handle_auto_scaling-Round :
      (s : State) → Round s.cluster.status s.calls (handle_auto_scaling p s).1
  unfolding handle_auto_scaling phase
  handle_auto_scaling-Round s =
      let st = s.cluster.status in
      let P = λ (m : Action Outcome). Round st s.calls (m s).1 in
      if_cases {A = Action Outcome} P st.is_draining _ _
        (λ d. check_drain_status-Round p laws s (rw d refl))
        (λ nd.
          if_cases {A = Action Outcome} P st.is_resharding _ _
            (λ r. check_resharding_status-Round p laws s (rw (nd, r) refl))
            (λ nr.
              if_cases {A = Action Outcome} P st.is_provisioning_standby _ _
                (λ v. check_provisioning_status-Round p laws s (rw (nd, nr, v) refl))
                (λ nv. monitor_metrics-Round s (rw (nd, nr, nv) refl))))

  -- Every round of handleAutoScaling does to the status in memory one move of the state machine of
  -- Autoscaler/Machine, allowed in the phase that the round starts in, whatever the platform
  -- answers, as long as a successful update answers with what was sent.
  pub handle_auto_scaling-Move :
      (s : State) → Move s.cluster.status (handle_auto_scaling p s).1.cluster.status
  handle_auto_scaling-Move s = (handle_auto_scaling-Round s).move
