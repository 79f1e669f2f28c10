-- ===== src/Autoscaler/Exclusive.antt =====
-- The steps of a round keep the status in memory, and every status that they send, exclusive: at most
-- one operation is in progress.
use mathlib.Core.Path.{subst}
use redis_foxtrot_autoscaler.Prelude.{sym, List, String}
use redis_foxtrot_autoscaler.Cluster.{RedisCluster, RedisClusterSpec, RedisClusterStatus}
use redis_foxtrot_autoscaler.Kube.{
  State, Request, Job, Resource, Platform, UpdateLaws, update_status, Sends, nothing, also,
  then-Sends, modify_status, put_status, put_status-status, Reads,
}
use redis_foxtrot_autoscaler.Infrastructure.{reconcile_owned, create_owned_job}
use redis_foxtrot_autoscaler.Infrastructure.Effects.{
  reconcile_owned-cluster, create_owned_job-cluster,
}
use redis_foxtrot_autoscaler.Infrastructure.Writes.{reconcile_owned-Sends, create_owned_job-Sends}
use redis_foxtrot_autoscaler.Standby.{detect_and_set_standby_pod}
use redis_foxtrot_autoscaler.Standby.Effects.{noted, detect-Detects}
use redis_foxtrot_autoscaler.Health.Writes.{detect-Sends}
use redis_foxtrot_autoscaler.Bootstrap.{mark_initialized, mark_discovered}
use redis_foxtrot_autoscaler.Autoscaler.{handle_auto_scaling}
use redis_foxtrot_autoscaler.Autoscaler.Machine.{IsExclusive, Move-IsExclusive}
use redis_foxtrot_autoscaler.Autoscaler.Round.{Saves}
use redis_foxtrot_autoscaler.Autoscaler.Moves.{handle_auto_scaling-Round}

-- A status that is sent is exclusive.
abbrev pub SavesExclusive : Request → Type 0
SavesExclusive (update_status c) = IsExclusive c.status
SavesExclusive _ = Unit

pub reads_exclusive : Reads SavesExclusive
reads_exclusive = record { pods = λ ns ls. tt; pod = λ k. tt; job = λ k. tt; metrics = λ text. tt }

-- The status in memory is exclusive, and so is every one that has been sent since `h`.
pub record Keeps (h : List Request) (s : State) : Type 0 where
  pub valid : IsExclusive s.cluster.status
  pub sent : Sends SavesExclusive h s.calls

pub noted-IsExclusive :
    (c : RedisCluster) (pod : String) → IsExclusive c.status → IsExclusive (noted c pod).status
noted-IsExclusive c pod v = record {
  drain_reshard = v.drain_reshard;
  drain_provision = v.drain_provision;
  reshard_provision = v.reshard_provision;
}

pub initialized-Keeps :
    {h : List Request} (s : State) → Keeps h s → Keeps h (modify_status mark_initialized s).1
initialized-Keeps s k = record {
  valid = record {
    drain_reshard = k.valid.drain_reshard;
    drain_provision = k.valid.drain_provision;
    reshard_provision = k.valid.reshard_provision;
  };
  sent = k.sent;
}

pub discovered-Keeps :
    {h : List Request} (spec : RedisClusterSpec) (s : State)
    → Keeps h s
    → Keeps h (modify_status (mark_discovered spec) s).1
discovered-Keeps spec s k = record {
  valid = record {
    drain_reshard = k.valid.drain_reshard;
    drain_provision = k.valid.drain_provision;
    reshard_provision = k.valid.reshard_provision;
  };
  sent = k.sent;
}

weaken : (st : RedisClusterStatus) (q : Request) → IsExclusive st → Saves st q → SavesExclusive q
weaken st (update_status c) v m = Move-IsExclusive m v
weaken st q v m = tt

round-Sends :
    {st : RedisClusterStatus} {h h' : List Request}
    → IsExclusive st
    → Sends (Saves st) h h'
    → Sends SavesExclusive h h'
round-Sends v nothing = nothing
round-Sends {st} v (also {q = q} m s) = also (weaken st q v m) (round-Sends v s)

module _ {F : Type 0} (p : Platform F) where
  pub owned-Keeps :
      {h : List Request} (x : Resource) (s : State) → Keeps h s → Keeps h (reconcile_owned p x s).1
  owned-Keeps x s k = record {
    valid =
        subst (λ (c : RedisCluster). IsExclusive c.status) (sym (reconcile_owned-cluster p x s))
          k.valid;
    sent = then-Sends k.sent (reconcile_owned-Sends p SavesExclusive x tt tt tt s);
  }

  pub job-Keeps :
      {h : List Request} (j : Job) (s : State) → Keeps h s → Keeps h (create_owned_job p j s).1
  job-Keeps j s k = record {
    valid =
        subst (λ (c : RedisCluster). IsExclusive c.status) (sym (create_owned_job-cluster p j s))
          k.valid;
    sent = then-Sends k.sent (create_owned_job-Sends p SavesExclusive j s tt);
  }

  pub detect-Keeps :
      {h : List Request} (s : State) → Keeps h s → Keeps h (detect_and_set_standby_pod p s).1
  detect-Keeps s k =
      let d = detect-Detects p s in
      record {
        valid =
            subst (λ (c : RedisCluster). IsExclusive c.status) (sym d.result)
              (noted-IsExclusive s.cluster d.pod k.valid);
        sent = then-Sends k.sent (detect-Sends p SavesExclusive reads_exclusive s);
      }

  module _ (laws : UpdateLaws p) where
    pub saved-Keeps : {h : List Request} (s : State) → Keeps h s → Keeps h (put_status p s).1
    saved-Keeps s k = record {
      valid = subst IsExclusive (sym (put_status-status p laws s)) k.valid;
      sent = also k.valid k.sent;
    }

    pub round-Keeps :
        {h : List Request} (s : State) → Keeps h s → Keeps h (handle_auto_scaling p s).1
    round-Keeps s k =
        let r = handle_auto_scaling-Round p laws s in
        record {
          valid = Move-IsExclusive r.move k.valid;
          sent = then-Sends k.sent (round-Sends k.valid r.sent);
        }
