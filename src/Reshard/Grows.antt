-- ===== src/Reshard/Grows.antt =====
-- A reshard that has worked: the cluster has one master more, and waits for its new standby.
use redis_foxtrot_autoscaler.Prelude.{not_same, ℕ, ◌≡◌, refl, ap, ◌∙◌, true, ◌*◌, List, ◌∷◌}
use redis_foxtrot_autoscaler.Prelude.Int.{pos}
use redis_foxtrot_autoscaler.Prelude.Int32.{lt32, add32}
use redis_foxtrot_autoscaler.Cluster.{RedisCluster}
use redis_foxtrot_autoscaler.Cluster.Index.{total_replicas}
use redis_foxtrot_autoscaler.Jobs.{reshard_name}
use redis_foxtrot_autoscaler.Resources.{stateful_set_for}
use redis_foxtrot_autoscaler.Infrastructure.{reconcile_owned}
use redis_foxtrot_autoscaler.Infrastructure.Effects.{reconcile_owned-cluster}
use redis_foxtrot_autoscaler.Infrastructure.Writes.{reconcile_owned-Synced}
use redis_foxtrot_autoscaler.Kube.{
  State, Key, JobStatus, Request, ok, Platform, Accepts, Outcome, Synced, Silent, held, wrote,
  Sends, nothing, also, status_held, spec_held, key_in, pure, ◌>>◌, after, second, drop_job,
  stateful_set, get_stateful_set, fetch_job, fetch_stateful_set,
}
use redis_foxtrot_autoscaler.Reshard.{
  start_provisioning, save_provisioning, finish_reshard, check_resharding_status,
}
use redis_foxtrot_autoscaler.Reshard.Writes.{grown}

-- The cluster after the reshard.
abbrev pub grown_at : ℕ → RedisCluster → RedisCluster
grown_at now c = record (grown c) { status = start_provisioning now c.status }

module _ {F : Type 0} (p : Platform F) where
  -- To a round that begins after the calls `h`, the stateful set has all its pods, and the reshard job has
  -- succeeded.
  pub record ReshardWorks (c : RedisCluster) (h : List Request) : Type 0 where
    pub pods :
        p.read_stateful_set h (key_in c c.name)
        ≡ ok (record { replicas = total_replicas c.spec; ready_replicas = total_replicas c.spec })
    pub job : JobStatus
    pub answer :
        p.read_job (get_stateful_set (key_in c c.name) ∷ h) (key_in c (reshard_name c)) ≡ ok job
    pub succeeded : lt32 0 job.succeeded ≡ true

  module _ (accepts : Accepts p) (o : RedisCluster) where
    drop-Silent :
        (k : Key) (t : State)
        → Sends (Silent p) t.calls ((do drop_job p k; pure (after (pos (5 * second)))) t).1.calls
    unfolding wrote
    drop-Silent k t = also (λ h c. refl) nothing

    save_provisioning-held :
        (k : Key) (s : State)
        → Synced p o s
        → (now : ℕ) × (held p o (save_provisioning p k s).1.calls
            ≡ record (s.cluster) { status = start_provisioning now s.cluster.status })
    unfolding save_provisioning
    save_provisioning-held k s synced =
        let set = stateful_set (stateful_set_for s.cluster) in
        let t = (reconcile_owned p set s).1 in
        let now = p.now t.calls in
        (
          now,
          status_held p accepts o (start_provisioning now)
                (do drop_job p k; pure (after (pos (5 * second)))) t
                (reconcile_owned-Synced p o set s synced) (drop-Silent k)
              ∙ ap (λ (c : RedisCluster). record c { status = start_provisioning now c.status })
                  (reconcile_owned-cluster p set s),
        )

    finish_reshard-held :
        (k : Key) (s : State)
        → Synced p o s
        → (now : ℕ) × (held p o (finish_reshard p k s).1.calls ≡ grown_at now s.cluster)
    unfolding finish_reshard
    finish_reshard-held k s synced =
        let (t, same, synced', goes_on) =
          spec_held p accepts o (λ m. record m { masters = add32 m.masters 1 })
            (save_provisioning p k) s synced in
        let (now, e) = save_provisioning-held k t synced' in
        (
          now,
          ap (λ (r : Outcome × State). held p o r.1.calls) goes_on
              ∙ (e
                  ∙ ap (λ (c : RedisCluster). record c { status = start_provisioning now c.status })
                      same),
        )

    -- The server then holds the grown cluster.
    pub check_resharding_status-held :
        (s : State)
        → Synced p o s
        → ReshardWorks s.cluster s.calls
        → (now : ℕ) × (held p o (check_resharding_status p s).1.calls ≡ grown_at now s.cluster)
    unfolding check_resharding_status held wrote
    check_resharding_status-held s synced w =
        let c = s.cluster in
        let t = (fetch_stateful_set p (key_in c c.name) s).1 in
        let k = key_in c (reshard_name c) in
        let (now, e) = finish_reshard-held k (fetch_job p k t).1 synced in
        (now, rw (w.pods, not_same (total_replicas c.spec), w.answer, w.succeeded) e)
