-- ===== src/Drain/Shrinks.antt =====
-- A drain that has worked: the cluster has one master less, and the drained pod is the standby.
use redis_foxtrot_autoscaler.Prelude.{ℕ, ◌≡◌, refl, ap, ◌∙◌, true, false, List, ◌∷◌, String}
use redis_foxtrot_autoscaler.Prelude.Int32.{lt32, sub32}
use redis_foxtrot_autoscaler.Cluster.{RedisCluster}
use redis_foxtrot_autoscaler.Jobs.{drain_name, cleanup_name}
use redis_foxtrot_autoscaler.Resources.{stateful_set_for}
use redis_foxtrot_autoscaler.Infrastructure.{reconcile_owned}
use redis_foxtrot_autoscaler.Infrastructure.Effects.{reconcile_owned-cluster}
use redis_foxtrot_autoscaler.Infrastructure.Writes.{reconcile_owned-Synced}
use redis_foxtrot_autoscaler.Kube.{
  State, Key, JobStatus, Request, ok, Platform, Accepts, Outcome, Synced, Silent, held, wrote,
  Sends, nothing, also, status_held, spec_held, key_in, pure, ◌>>◌, done, drop_job, stateful_set,
  fetch_job, get_job,
}
use redis_foxtrot_autoscaler.Health.{is_active}
use redis_foxtrot_autoscaler.Drain.{drained, save_drained, finish_drain, check_drain_status}
use redis_foxtrot_autoscaler.Drain.Writes.{shrunk}

-- The cluster after the drain.
abbrev pub shrunk_at : ℕ → RedisCluster → RedisCluster
shrunk_at now c = record (shrunk c) { status = drained c.status.pod_to_drain now c.status }

module _ {F : Type 0} (p : Platform F) where
  -- To a round that begins after the calls `h`, the drain job has succeeded, and the cleanup job has ended without a failure.
  pub record DrainWorks (c : RedisCluster) (h : List Request) : Type 0 where
    pub drain : JobStatus
    pub drain_answer : p.read_job h (key_in c (drain_name c)) ≡ ok drain
    pub succeeded : lt32 0 drain.succeeded ≡ true
    pub cleanup : JobStatus
    pub cleanup_answer :
        p.read_job (get_job (key_in c (drain_name c)) ∷ h) (key_in c (cleanup_name c)) ≡ ok cleanup
    pub over : is_active cleanup ≡ false
    pub unharmed : lt32 0 cleanup.failed ≡ false

  module _ (accepts : Accepts p) (o : RedisCluster) where
    drops-Silent :
        (d k : Key) (t : State)
        → Sends (Silent p) t.calls ((do drop_job p d; drop_job p k; pure done) t).1.calls
    unfolding wrote
    drops-Silent d k t = also (λ h c. refl) (also (λ h c. refl) nothing)

    save_drained-held :
        (pod : String) (d k : Key) (s : State)
        → Synced p o s
        → (now : ℕ) × (held p o (save_drained p pod d k s).1.calls
            ≡ record (s.cluster) { status = drained pod now s.cluster.status })
    unfolding save_drained
    save_drained-held pod d k s synced =
        let set = stateful_set (stateful_set_for s.cluster) in
        let t = (reconcile_owned p set s).1 in
        let now = p.now t.calls in
        (
          now,
          status_held p accepts o (drained pod now) (do drop_job p d; drop_job p k; pure done) t
                (reconcile_owned-Synced p o set s synced) (drops-Silent d k)
              ∙ ap (λ (c : RedisCluster). record c { status = drained pod now c.status })
                  (reconcile_owned-cluster p set s),
        )

    finish_drain-held :
        (pod : String) (d k : Key) (s : State)
        → Synced p o s
        → (now : ℕ) × (held p o (finish_drain p pod d k s).1.calls
            ≡ record (shrunk s.cluster) { status = drained pod now s.cluster.status })
    unfolding finish_drain
    finish_drain-held pod d k s synced =
        let (t, same, synced', goes_on) =
          spec_held p accepts o (λ m. record m { masters = sub32 m.masters 1 })
            (save_drained p pod d k) s synced in
        let (now, e) = save_drained-held pod d k t synced' in
        (
          now,
          ap (λ (r : Outcome × State). held p o r.1.calls) goes_on
              ∙ (e
                  ∙ ap (λ (c : RedisCluster). record c { status = drained pod now c.status }) same),
        )

    -- The server then holds the shrunk cluster.
    pub check_drain_status-held :
        (s : State)
        → Synced p o s
        → DrainWorks s.cluster s.calls
        → (now : ℕ) × (held p o (check_drain_status p s).1.calls ≡ shrunk_at now s.cluster)
    unfolding check_drain_status held wrote
    check_drain_status-held s synced w =
        let c = s.cluster in
        let d = key_in c (drain_name c) in
        let k = key_in c (cleanup_name c) in
        let t = (fetch_job p d s).1 in
        let (now, e) = finish_drain-held c.status.pod_to_drain d k (fetch_job p k t).1 synced in
        (now, rw (w.drain_answer, w.succeeded, w.cleanup_answer, w.over, w.unharmed) e)
