-- ===== src/Autoscaler/Writes.antt =====
-- What a round of the autoscaler may send.
use mathlib.Core.Path.{subst}
use redis_foxtrot_autoscaler.Prelude.{◌≡◌, refl, sym, inl, inr, Bool-cases, if_cases, List}
use redis_foxtrot_autoscaler.Prelude.Int.{ℤ}
use redis_foxtrot_autoscaler.Cluster.{RedisCluster}
use redis_foxtrot_autoscaler.Kube.{
  State, Action, Outcome, Request, Platform, seconds, update_cluster, create_job, delete_job,
  create_resource, update_resource, Sends, Reads, then-Sends,
}
use redis_foxtrot_autoscaler.Health.{is_cluster_healthy_for_scaling}
use redis_foxtrot_autoscaler.Health.Writes.{health-Sends}
use redis_foxtrot_autoscaler.Autoscaler.Idle.{when_idle-Sends}
use redis_foxtrot_autoscaler.Reshard.{check_resharding_status}
use redis_foxtrot_autoscaler.Provision.{check_provisioning_status}
use redis_foxtrot_autoscaler.Drain.{check_drain_status}
use redis_foxtrot_autoscaler.Reshard.Writes.{MayReshard, check_resharding_status-Reshards}
use redis_foxtrot_autoscaler.Provision.Writes.{MayProvision, check_provisioning_status-Provisions}
use redis_foxtrot_autoscaler.Drain.Writes.{MayDrain, check_drain_status-Drains}
use redis_foxtrot_autoscaler.Autoscaler.Machine.{
  Phase, phase, draining, resharding, provisioning, monitoring,
}
use redis_foxtrot_autoscaler.Autoscaler.{when_idle, monitor_metrics, handle_auto_scaling}

-- Every request but a write of the spec, of a job or of an object.
abbrev pub MayMonitor : Request → Type 0
MayMonitor (update_cluster c) = ⊥
MayMonitor (create_job j) = ⊥
MayMonitor (delete_job k) = ⊥
MayMonitor (create_resource x) = ⊥
MayMonitor (update_resource x) = ⊥
MayMonitor _ = Unit

abbrev pub Monitoring : State → State → Type 0
Monitoring s s' = Sends MayMonitor s.calls s'.calls

monitor_reads : Reads MayMonitor
monitor_reads = record { pods = λ ns ls. tt; pod = λ k. tt; job = λ k. tt; metrics = λ text. tt }

module _ {F : Type 0} (p : Platform F) where
  idle-Monitoring : (delay : ℤ) (s : State) → Monitoring s (when_idle p delay s).1
  idle-Monitoring delay s =
      when_idle-Sends p MayMonitor monitor_reads s.cluster.status
        (record { up = λ c pod e. tt; down = λ c pod dests e. tt }) delay s refl

  -- A round of monitoring sends queries and reads, and updates at most the status: it writes neither
  -- the spec nor a job nor an object of the infrastructure.
  pub monitor_metrics-Monitoring : (s : State) → Monitoring s (monitor_metrics p s).1
  unfolding monitor_metrics
  monitor_metrics-Monitoring s =
      let delay = seconds s.cluster.spec.metrics_query_interval in
      let t = (is_cluster_healthy_for_scaling p s).1 in
      elim (Bool-cases (is_cluster_healthy_for_scaling p s).0.is_healthy) [
        | inl healthy ↦ rw healthy (
            then-Sends (health-Sends p MayMonitor monitor_reads s (λ pod. tt))
              (idle-Monitoring delay t))
        | inr sick ↦ rw sick (health-Sends p MayMonitor monitor_reads s (λ pod. tt))
      ]

  -- What the round of each phase may send.
  abbrev pub May : Phase → RedisCluster → List Request → Request → Type 0
  May draining c h q = MayDrain p c h q
  May resharding c h q = MayReshard p c h q
  May provisioning c h q = MayProvision p c h q
  May monitoring c h q = MayMonitor q

  -- A round of the autoscaler sends only what a round of its phase may: the number of masters
  -- changes, by one, only after the round's answers that the jobs of a reshard or of a drain have
  -- done their work; no job is created or deleted outside its phase; monitoring updates at most
  -- the status. The answers of the platform are arbitrary.
  pub handle_auto_scaling-Sends :
      (s : State)
      → Sends
          (May (phase s.cluster.status) s.cluster s.calls)
          s.calls
          (handle_auto_scaling p s).1.calls
  unfolding handle_auto_scaling phase
  handle_auto_scaling-Sends s =
      let st = s.cluster.status in
      let P =
        λ (m : Action Outcome). Sends (May (phase st) s.cluster s.calls) s.calls (m s).1.calls in
      let as_phase : (f : Phase) (m : Action Outcome)
          → phase st ≡ f
          → Sends (May f s.cluster s.calls) s.calls (m s).1.calls
          → P m =
        λ f m e sent.
          subst (λ g. Sends (May g s.cluster s.calls) s.calls (m s).1.calls) (sym e) sent in
      if_cases {A = Action Outcome} P st.is_draining _ _
        (λ d. as_phase draining (check_drain_status p) (rw d refl) (check_drain_status-Drains p s))
        (λ nd.
          if_cases {A = Action Outcome} P st.is_resharding _ _
            (λ r.
              as_phase resharding (check_resharding_status p) (rw (nd, r) refl)
                (check_resharding_status-Reshards p s))
            (λ nr.
              if_cases {A = Action Outcome} P st.is_provisioning_standby _ _
                (λ v.
                  as_phase provisioning (check_provisioning_status p) (rw (nd, nr, v) refl)
                    (check_provisioning_status-Provisions p s))
                (λ nv.
                  as_phase monitoring (monitor_metrics p) (rw (nd, nr, nv) refl)
                    (monitor_metrics-Monitoring s))))
