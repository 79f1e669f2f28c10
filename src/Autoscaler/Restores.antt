-- ===== src/Autoscaler/Restores.antt =====
-- A scale-up and the scale-down after it.
use mathlib.Core.Path.{subst}
use redis_foxtrot_autoscaler.Prelude.{ℕ, ◌≡◌, ◌∙◌, refl, sym, ap, ◌<◌, List, String, ◌∷◌, arith}
use redis_foxtrot_autoscaler.Prelude.Int32.{add32, sub32, modulus}
use redis_foxtrot_autoscaler.Cluster.{RedisCluster, RedisClusterStatus}
use redis_foxtrot_autoscaler.Cluster.Index.{standby_pod_name, last_master_name}
use redis_foxtrot_autoscaler.Cluster.Index.Bounds.{up_down}
use redis_foxtrot_autoscaler.Kube.{
  State, Request, Platform, Accepts, Synced, Silent, Sends, Sends-held, held, wrote, reads_at,
  take_status, update_status,
}
use redis_foxtrot_autoscaler.Trigger.{start_draining}
use redis_foxtrot_autoscaler.Reshard.Grows.{ReshardWorks}
use redis_foxtrot_autoscaler.Provision.Joins.{JoinWorks}
use redis_foxtrot_autoscaler.Drain.Shrinks.{DrainWorks}
use redis_foxtrot_autoscaler.Autoscaler.{handle_auto_scaling}
use redis_foxtrot_autoscaler.Autoscaler.Machine.{
  phase, draining, resharding, monitoring, IsExclusive,
}
use redis_foxtrot_autoscaler.Autoscaler.Cycle.{Grew, Shrank, growth_completes, drain_completes}

started-phase :
    (pod : String) (d : String × String) (st : RedisClusterStatus)
    → phase (start_draining pod d st) ≡ draining
unfolding phase
started-phase pod d st = refl

started-IsExclusive :
    (pod : String) (d : String × String) (st : RedisClusterStatus)
    → phase st ≡ monitoring
    → IsExclusive (start_draining pod d st)
unfolding phase
started-IsExclusive pod d st h = ground arith

-- The last master of the cluster drains.
abbrev pub with_drain : String × String → RedisCluster → RedisCluster
with_drain d c = record c { status = start_draining (last_master_name c) d c.status }

drains_last :
    (d : String × String) (c : RedisCluster)
    → (with_drain d c).status.pod_to_drain ≡ last_master_name (with_drain d c)
unfolding last_master_name
drains_last d c = refl

add32_lt : (m : ℕ) → add32 m 1 < modulus
add32_lt m = omega arith

drained-restores :
    (before b c : RedisCluster) (d : String × String)
    → before.spec.masters < modulus
    → Grew before b
    → Shrank (with_drain d b) c
    → (phase c.status ≡ monitoring)
      × (c.spec.masters ≡ before.spec.masters)
      × (c.status.standby_pod ≡ standby_pod_name before)
unfolding last_master_name
drained-restores before b c d fits grew shrank = (
  shrank.monitors,
  shrank.masters ∙ ap (λ m. sub32 m 1) grew.masters ∙ up_down before.spec.masters fits,
  shrank.standby ∙ shrank.demoted ∙ grew.promoted,
)

module _ {F : Type 0} (p : Platform F) (accepts : Accepts p) (o : RedisCluster) where
  -- What is sent for the drain is held.
  drain_held :
      (d : String × String) {h h' : List Request}
      → Sends (Silent p) (update_status (with_drain d (held p o h)) ∷ h) h'
      → held p o h' ≡ with_drain d (held p o h)
  unfolding held wrote
  drain_held d {h} sent =
      Sends-held p o sent
      ∙ ap (λ r. take_status (held p o h) (with_drain d (held p o h)) r) (accepts.status h _)

  -- Where the server accepts the updates, and holds at the start of the growth the object that its
  -- first round works on, and the jobs do their work for the rounds that ask, a growth, the status
  -- update that starts a drain of the last master, and the round of that drain leave the server
  -- holding a cluster in monitoring with the number of masters and the name of the standby's pod
  -- that the growth began with. The later rounds read the object that the server holds; between
  -- the rounds and the update come only calls that do not write it. The number of masters is an
  -- int32.
  pub growth_then_drain :
      (s : State) (h g h' : List Request) (d : String × String)
      → Synced p o s
      → phase s.cluster.status ≡ resharding
      → s.cluster.spec.masters < modulus
      → ReshardWorks p s.cluster s.calls
      → Sends (Silent p) (handle_auto_scaling p s).1.calls h
      → JoinWorks p (held p o h) h
      → Sends (Silent p) (handle_auto_scaling p (reads_at p o h)).1.calls g
      → Sends (Silent p) (update_status (with_drain d (held p o g)) ∷ g) h'
      → DrainWorks p (held p o h') h'
      → let c = held p o (handle_auto_scaling p (reads_at p o h')).1.calls in
        (phase c.status ≡ monitoring)
        × (c.spec.masters ≡ s.cluster.spec.masters)
        × (c.status.standby_pod ≡ standby_pod_name s.cluster)
  growth_then_drain s h g h' d synced ph fits works between joins reads starts drains =
      let b = held p o g in
      let grew =
        subst (λ x. Grew s.cluster x) (sym (Sends-held p o reads))
          (growth_completes p accepts o s h synced ph fits works between joins) in
      let c = held p o (handle_auto_scaling p (reads_at p o h')).1.calls in
      let same = drain_held d starts in
      let shrank =
        subst (λ x. Shrank x c) same
          (drain_completes p accepts o (reads_at p o h') refl
            (subst (λ (x : RedisCluster). phase x.status ≡ draining) (sym same)
              (started-phase (last_master_name b) d b.status))
            (subst (λ (x : RedisCluster). IsExclusive x.status) (sym same)
              (started-IsExclusive (last_master_name b) d b.status grew.monitors))
            (subst (λ (x : RedisCluster). x.spec.masters < modulus) (sym same)
              (subst (λ m. m < modulus) (sym grew.masters) (add32_lt s.cluster.spec.masters)))
            (subst (λ (x : RedisCluster). x.status.pod_to_drain ≡ last_master_name x) (sym same)
              (drains_last d b))
            drains) in
      drained-restores s.cluster b c d fits grew shrank
