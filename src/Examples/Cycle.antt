-- ===== src/Examples/Cycle.antt =====
-- Whole scalings of the concrete cluster, and its bootstrap.
use redis_foxtrot_autoscaler.Prelude.{ℕ, ◌≡◌, ◌∷◌, [], refl, some, true, false, String, List, arith}
use redis_foxtrot_autoscaler.Prelude.Decimal.{format, render, digits, digit_char}
use redis_foxtrot_autoscaler.Errors.{running}
use redis_foxtrot_autoscaler.Cluster.{RedisCluster}
use redis_foxtrot_autoscaler.Cluster.Index.{
  total_replicas, pod_name, last_master_index, last_master_name, standby_pod_name,
}
use redis_foxtrot_autoscaler.Kube.{
  Platform, State, JobStatus, Request, ok, Accepts, update_status, done, Synced, held, reads_at,
  nothing,
}
use redis_foxtrot_autoscaler.Reshard.Grows.{ReshardWorks}
use redis_foxtrot_autoscaler.Provision.Joins.{JoinWorks}
use redis_foxtrot_autoscaler.Drain.Shrinks.{DrainWorks}
use redis_foxtrot_autoscaler.Autoscaler.Restores.{with_drain, growth_then_drain}
use redis_foxtrot_autoscaler.Bootstrap.{handle_bootstrap}
use redis_foxtrot_autoscaler.Bootstrap.Completes.{BootstrapWorks, bootstrap_completes}
use redis_foxtrot_autoscaler.Autoscaler.{handle_auto_scaling}
use redis_foxtrot_autoscaler.Autoscaler.Machine.{
  phase, draining, resharding, monitoring, IsExclusive,
}
use redis_foxtrot_autoscaler.Autoscaler.Cycle.{Grew, Shrank, growth_completes, drain_completes}
use redis_foxtrot_autoscaler.Examples.World.{platform, start, cluster, status}

abbrev pub succeeded : JobStatus
succeeded = record { succeeded = 1; failed = 0 }

-- Every job has succeeded, and every pod is ready.
abbrev pub working : Platform ℕ
working = record platform {
  read_job = λ h k. ok succeeded;
  read_pod = λ h k. ok (record {
    name = k.name;
    phase = running;
    container_ready = true ∷ [];
    conditions = ("Ready", "True") ∷ [];
  });
}

accepts : Accepts working
accepts = record { spec = λ h c. refl; status = λ h c. refl }

abbrev pub growing : State
growing = record start {
  cluster = record cluster {
    status = record status { is_resharding = true; overloaded_pod = "redis-0" };
  };
}

abbrev pub shrinking : State
shrinking = record start {
  cluster = record cluster {
    status = record status {
      is_draining = true;
      pod_to_drain = "redis-1";
      drain_dest_pod1 = "redis-0";
    };
  };
}

reshards : ReshardWorks working growing.cluster []
unfolding total_replicas
reshards = record { pods = refl; job = succeeded; answer = refl; succeeded = refl }

-- The custom resource as it is before all calls.
abbrev origin : RedisCluster
origin = growing.cluster

growing-Synced : Synced working origin growing
unfolding held
growing-Synced = refl

shrinking-Synced : Synced working shrinking.cluster shrinking
unfolding held
shrinking-Synced = refl

-- The calls after the two rounds of a growth, and the start of a drain after them.
abbrev round1 : List Request
round1 = (handle_auto_scaling working growing).1.calls

abbrev round2 : List Request
round2 = (handle_auto_scaling working (reads_at working origin round1)).1.calls

abbrev dests : String × String
dests = ("redis-0", "redis-1")

abbrev marked : List Request
marked = update_status (with_drain dests (held working origin round2)) ∷ round2

joins : (c : RedisCluster) (h : List Request) → JoinWorks working c h
joins c h = record {
  pod = _;
  present = refl;
  ready = refl;
  job = succeeded;
  answer = refl;
  succeeded = refl;
}

drains : (c : RedisCluster) (h : List Request) → DrainWorks working c h
drains c h = record {
  drain = succeeded;
  drain_answer = refl;
  succeeded = refl;
  cleanup = succeeded;
  cleanup_answer = refl;
  over = refl;
  unharmed = refl;
}

is_growing : phase growing.cluster.status ≡ resharding
unfolding phase
is_growing = refl

is_shrinking : phase shrinking.cluster.status ≡ draining
unfolding phase
is_shrinking = refl

shrinking-IsExclusive : IsExclusive shrinking.cluster.status
shrinking-IsExclusive = record {
  drain_reshard = refl;
  drain_provision = refl;
  reshard_provision = refl;
}

is_last : shrinking.cluster.status.pod_to_drain ≡ last_master_name shrinking.cluster
unfolding last_master_name pod_name last_master_index format render digits digit_char
is_last = refl

growth_completes_example :
    Grew growing.cluster
      (held working origin (handle_auto_scaling working (reads_at working origin round1)).1.calls)
growth_completes_example =
    growth_completes working accepts origin growing round1 growing-Synced is_growing (omega arith)
      reshards nothing (joins _ _)

drain_completes_example :
    Shrank shrinking.cluster
      (held working shrinking.cluster (handle_auto_scaling working shrinking).1.calls)
drain_completes_example =
    drain_completes working accepts shrinking.cluster shrinking shrinking-Synced is_shrinking
      shrinking-IsExclusive (omega arith) is_last (drains _ _)

growth_then_drain_example :
    let c =
      held working origin (handle_auto_scaling working (reads_at working origin marked)).1.calls in
    (phase c.status ≡ monitoring)
    × (c.spec.masters ≡ 2)
    × (c.status.standby_pod ≡ standby_pod_name growing.cluster)
growth_then_drain_example =
    growth_then_drain working accepts origin growing round1 round2 marked dests growing-Synced
      is_growing (omega arith) reshards nothing (joins _ _) nothing nothing (drains _ _)

-- A new cluster.
abbrev fresh : State
fresh = record start {
  cluster = record cluster { status = record status { initialized = false; standby_pod = "" } };
}

bootstraps : BootstrapWorks working fresh.cluster []
unfolding total_replicas
bootstraps = record {
  fresh = refl;
  replicas = 3;
  pods = refl;
  job = succeeded;
  answer = refl;
  succeeded = refl;
  standby = record { managed = refl; pod = _; found = refl; running = refl; ready = refl };
}

bootstrap_completes_example :
    let (o, t) = handle_bootstrap working fresh in
    (o ≡ some done)
    × (t.cluster.status ≡ record (fresh.cluster.status) {
      initialized = true;
      standby_pod = standby_pod_name fresh.cluster;
    })
    × ((h : List Request) × (t.calls ≡ update_status t.cluster ∷ h))
bootstrap_completes_example = bootstrap_completes working accepts fresh bootstraps
