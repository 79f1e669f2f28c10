-- ===== src/Autoscaler/Cycle.antt =====
-- Whole scalings: where the jobs do their work and the server accepts the updates, the operations end,
-- and the roles of the pods are those that the next one expects.
use mathlib.Core.Path.{subst}
use redis_foxtrot_autoscaler.Prelude.{
  ℕ, ◌≡◌, refl, ◌∙◌, sym, ap, ◌<◌, true, false, String, List, arith,
}
use redis_foxtrot_autoscaler.Prelude.Int32.{add32, sub32, modulus}
use redis_foxtrot_autoscaler.Cluster.{RedisCluster, RedisClusterStatus}
use redis_foxtrot_autoscaler.Cluster.Index.{standby_pod_name, last_master_name}
use redis_foxtrot_autoscaler.Cluster.Index.Bounds.{roles_swap}
use redis_foxtrot_autoscaler.Kube.{
  State, Request, Platform, Accepts, Synced, Silent, Sends, Sends-held, held, reads_at,
}
use redis_foxtrot_autoscaler.Reshard.{start_provisioning, check_resharding_status}
use redis_foxtrot_autoscaler.Reshard.Grows.{grown_at, ReshardWorks, check_resharding_status-held}
use redis_foxtrot_autoscaler.Provision.{finish_provisioning, check_provisioning_status}
use redis_foxtrot_autoscaler.Provision.Joins.{joined, JoinWorks, check_provisioning_status-held}
use redis_foxtrot_autoscaler.Drain.{drained, check_drain_status}
use redis_foxtrot_autoscaler.Drain.Shrinks.{shrunk_at, DrainWorks, check_drain_status-held}
use redis_foxtrot_autoscaler.Autoscaler.{handle_auto_scaling}
use redis_foxtrot_autoscaler.Autoscaler.Machine.{
  phase, draining, resharding, provisioning, monitoring, IsExclusive,
}

-- The flags that each phase is made of.
draining_flags : (st : RedisClusterStatus) → phase st ≡ draining → st.is_draining ≡ true
unfolding phase
draining_flags st h = ground arith

resharding_flags :
    (st : RedisClusterStatus)
    → phase st ≡ resharding
    → (st.is_draining ≡ false) × (st.is_resharding ≡ true)
unfolding phase
resharding_flags st h = ground arith

provisioning_flags :
    (st : RedisClusterStatus)
    → phase st ≡ provisioning
    → (st.is_draining ≡ false) × (st.is_resharding ≡ false) × (st.is_provisioning_standby ≡ true)
unfolding phase
provisioning_flags st h = ground arith

-- The phases that the operations end in.
grown-phase :
    (now : ℕ) (st : RedisClusterStatus)
    → phase st ≡ resharding
    → phase (start_provisioning now st) ≡ provisioning
unfolding phase
grown-phase now st h = ground arith

joined-phase :
    (name : String) (st : RedisClusterStatus)
    → phase st ≡ provisioning
    → phase (finish_provisioning name st) ≡ monitoring
unfolding phase
joined-phase name st h = ground arith

drained-phase :
    (pod : String) (now : ℕ) (st : RedisClusterStatus)
    → IsExclusive st
    → phase st ≡ draining
    → phase (drained pod now st) ≡ monitoring
unfolding phase
drained-phase pod now st v h = ground arith

-- What the server holds after a growth that started from the cluster `before`.
pub record Grew (before c : RedisCluster) : Type 0 where
  pub monitors : phase c.status ≡ monitoring
  pub masters : c.spec.masters ≡ add32 before.spec.masters 1
  pub standby : c.status.standby_pod ≡ standby_pod_name c
  pub promoted : last_master_name c ≡ standby_pod_name before

joined-Grew :
    (now : ℕ) (c : RedisCluster)
    → phase c.status ≡ resharding
    → c.spec.masters < modulus
    → Grew c (joined (grown_at now c))
unfolding last_master_name standby_pod_name
joined-Grew now c ph fits = record {
  monitors =
      joined-phase (standby_pod_name (grown_at now c)) (start_provisioning now c.status)
        (grown-phase now c.status ph);
  masters = refl;
  standby = refl;
  promoted = (roles_swap c fits).0;
}

-- What the server holds after the drain of the last master of the cluster `before`.
pub record Shrank (before c : RedisCluster) : Type 0 where
  pub monitors : phase c.status ≡ monitoring
  pub masters : c.spec.masters ≡ sub32 before.spec.masters 1
  pub standby : c.status.standby_pod ≡ standby_pod_name c
  pub demoted : standby_pod_name c ≡ last_master_name before

drained-Shrank :
    (now : ℕ) (c : RedisCluster)
    → phase c.status ≡ draining
    → IsExclusive c.status
    → c.spec.masters < modulus
    → c.status.pod_to_drain ≡ last_master_name c
    → Shrank c (shrunk_at now c)
unfolding standby_pod_name
drained-Shrank now c ph v fits last =
    let swap = (roles_swap c fits).1 in
    record {
      monitors = drained-phase c.status.pod_to_drain now c.status v ph;
      masters = refl;
      standby = last ∙ sym swap;
      demoted = swap;
    }

module _ {F : Type 0} (p : Platform F) where
  when_draining :
      (s : State)
      → phase s.cluster.status ≡ draining
      → handle_auto_scaling p s ≡ check_drain_status p s
  unfolding handle_auto_scaling
  when_draining s h = rw (draining_flags s.cluster.status h) refl

  when_resharding :
      (s : State)
      → phase s.cluster.status ≡ resharding
      → handle_auto_scaling p s ≡ check_resharding_status p s
  unfolding handle_auto_scaling
  when_resharding s h = let (d, r) = resharding_flags s.cluster.status h in rw (d, r) refl

  when_provisioning :
      (s : State)
      → phase s.cluster.status ≡ provisioning
      → handle_auto_scaling p s ≡ check_provisioning_status p s
  unfolding handle_auto_scaling
  when_provisioning s h = let (d, r, v) = provisioning_flags s.cluster.status h in rw (d, r, v) refl

  module _ (accepts : Accepts p) (o : RedisCluster) where
    grows_once :
        (s : State)
        → Synced p o s
        → phase s.cluster.status ≡ resharding
        → ReshardWorks p s.cluster s.calls
        → (now : ℕ) × (held p o (handle_auto_scaling p s).1.calls ≡ grown_at now s.cluster)
    grows_once s synced h w =
        rw (when_resharding s h) (check_resharding_status-held p accepts o s synced w)

    joins_once :
        (s : State)
        → Synced p o s
        → phase s.cluster.status ≡ provisioning
        → JoinWorks p s.cluster s.calls
        → held p o (handle_auto_scaling p s).1.calls ≡ joined s.cluster
    joins_once s synced h w =
        rw (when_provisioning s h) (check_provisioning_status-held p accepts o s synced w)

    shrinks_once :
        (s : State)
        → Synced p o s
        → phase s.cluster.status ≡ draining
        → DrainWorks p s.cluster s.calls
        → (now : ℕ) × (held p o (handle_auto_scaling p s).1.calls ≡ shrunk_at now s.cluster)
    shrinks_once s synced h w =
        rw (when_draining s h) (check_drain_status-held p accepts o s synced w)

    -- Where the server accepts the updates, and holds at the start of the first round the object
    -- that the round works on, and the pods and the jobs have done their work for the two rounds,
    -- a cluster in resharding is after two rounds held by the server in monitoring, with one
    -- master more, whose pod is the one that was the standby, and with the pod at the new
    -- standby's index as its standby. The second round reads the object that the server holds;
    -- between the rounds come only calls that do not write it. The number of masters is an int32.
    pub growth_completes :
        (s : State) (h : List Request)
        → Synced p o s
        → phase s.cluster.status ≡ resharding
        → s.cluster.spec.masters < modulus
        → ReshardWorks p s.cluster s.calls
        → Sends (Silent p) (handle_auto_scaling p s).1.calls h
        → JoinWorks p (held p o h) h
        → Grew s.cluster (held p o (handle_auto_scaling p (reads_at p o h)).1.calls)
    growth_completes s h synced ph fits works between joins =
        let (now, e) = grows_once s synced ph works in
        let same = Sends-held p o between ∙ e in
        let ph' =
          subst (λ (c : RedisCluster). phase c.status ≡ provisioning) (sym same)
            (grown-phase now s.cluster.status ph) in
        subst (λ c. Grew s.cluster c)
          (sym (joins_once (reads_at p o h) refl ph' joins ∙ ap joined same))
          (joined-Grew now s.cluster ph fits)

    -- Where the server accepts the updates and holds at the start the object that the round works
    -- on, and the drain and the cleanup jobs have done their work for the round, a cluster that
    -- drains its last master, and does nothing else, is after one round held by the server in
    -- monitoring, with one master less, and with the drained pod as its standby, at the standby's
    -- index. The number of masters is an int32.
    pub drain_completes :
        (s : State)
        → Synced p o s
        → phase s.cluster.status ≡ draining
        → IsExclusive s.cluster.status
        → s.cluster.spec.masters < modulus
        → s.cluster.status.pod_to_drain ≡ last_master_name s.cluster
        → DrainWorks p s.cluster s.calls
        → Shrank s.cluster (held p o (handle_auto_scaling p s).1.calls)
    drain_completes s synced ph v fits last works =
        let (now, e) = shrinks_once s synced ph works in
        subst (λ c. Shrank s.cluster c) (sym e) (drained-Shrank now s.cluster ph v fits last)
