-- ===== src/Examples/Rounds.antt =====
-- What a round sends, and how it reads its input, at the concrete cluster.
use mathlib.Core.List.{Memᴰ}
use redis_foxtrot_autoscaler.Prelude.{
  ℕ, ◌≡◌, ◌≢◌, some, ◌⊎◌, true, none, refl, List, [], ◌∷◌, String, All,
}
use redis_foxtrot_autoscaler.Errors.{service_name_required}
use redis_foxtrot_autoscaler.Cluster.Spec.{set_defaults, validate_spec}
use redis_foxtrot_autoscaler.Cluster.Spec.Defaults.{IsCompleted, set_defaults-IsCompleted}
use redis_foxtrot_autoscaler.Cluster.Index.{total_replicas}
use redis_foxtrot_autoscaler.Bootstrap.{handle_bootstrap}
use redis_foxtrot_autoscaler.Bootstrap.Gate.{handle_bootstrap_gate}
use redis_foxtrot_autoscaler.Kube.{State, Key, PodLoad, Sends, get_cluster}
use redis_foxtrot_autoscaler.Metrics.{join_metrics}
use redis_foxtrot_autoscaler.Metrics.Join.{IsJoined, join_metrics_exact}
use redis_foxtrot_autoscaler.Reconcile.{reconcile}
use redis_foxtrot_autoscaler.Reconcile.Rejects.{FoundValid, reconcile_only_valid}
use redis_foxtrot_autoscaler.Reshard.{check_resharding_status}
use redis_foxtrot_autoscaler.Reshard.Writes.{MayReshard, check_resharding_status-Reshards}
use redis_foxtrot_autoscaler.Provision.{check_provisioning_status}
use redis_foxtrot_autoscaler.Provision.Writes.{MayProvision, check_provisioning_status-Provisions}
use redis_foxtrot_autoscaler.Drain.{check_drain_status}
use redis_foxtrot_autoscaler.Drain.Writes.{MayDrain, check_drain_status-Drains}
use redis_foxtrot_autoscaler.Autoscaler.{handle_auto_scaling}
use redis_foxtrot_autoscaler.Autoscaler.Machine.{phase}
use redis_foxtrot_autoscaler.Autoscaler.Writes.{May, handle_auto_scaling-Sends}
use redis_foxtrot_autoscaler.Examples.World.{platform, updates, start, cluster, status}

set_defaults-IsCompleted_example :
    IsCompleted cluster.name cluster.spec (set_defaults cluster).spec
    × (validate_spec (set_defaults cluster).spec ≢ some service_name_required)
set_defaults-IsCompleted_example = set_defaults-IsCompleted cluster

abbrev memory : List (String × ℕ)
memory = ("redis-0", 40) ∷ ("redis-2", 10) ∷ []

abbrev cpu : List (String × ℕ)
cpu = ("redis-0", 7) ∷ ("redis-1", 8) ∷ ("redis-2", 9) ∷ []

join_metrics_exact_example :
    All (IsJoined "redis-2" memory cpu) (join_metrics "redis-2" memory cpu)
    × ((l : PodLoad ℕ)
        → IsJoined "redis-2" memory cpu l
        → Memᴰ l (join_metrics "redis-2" memory cpu))
join_metrics_exact_example = join_metrics_exact "redis-2" memory cpu

abbrev key : Key
key = record { name = "redis"; namespace = "default" }

reconcile_only_valid_example :
    ((reconcile platform key start).1.calls ≡ get_cluster key ∷ []) ⊎ FoundValid platform [] key
reconcile_only_valid_example = reconcile_only_valid platform key start

handle_auto_scaling-Sends_example :
    Sends (May platform (phase status) cluster []) [] (handle_auto_scaling platform start).1.calls
handle_auto_scaling-Sends_example = handle_auto_scaling-Sends platform start

-- The cluster in the middle of each operation.
abbrev growing : State
growing = record start {
  cluster = record cluster {
    status = record status { is_resharding = true; overloaded_pod = "redis-0" };
  };
}

abbrev joining : State
joining = record start {
  cluster = record cluster { status = record status { is_provisioning_standby = true } };
}

abbrev shrinking : State
shrinking = record start {
  cluster = record cluster {
    status = record status {
      is_draining = true;
      pod_to_drain = "redis-1";
      drain_dest_pod1 = "redis-0";
    };
  };
}

check_resharding_status-Reshards_example :
    Sends
      (MayReshard platform growing.cluster [])
      []
      (check_resharding_status platform growing).1.calls
check_resharding_status-Reshards_example = check_resharding_status-Reshards platform growing

check_provisioning_status-Provisions_example :
    Sends
      (MayProvision platform joining.cluster [])
      []
      (check_provisioning_status platform joining).1.calls
check_provisioning_status-Provisions_example = check_provisioning_status-Provisions platform joining

check_drain_status-Drains_example :
    Sends
      (MayDrain platform shrinking.cluster [])
      []
      (check_drain_status platform shrinking).1.calls
check_drain_status-Drains_example = check_drain_status-Drains platform shrinking

start_goes_on : (handle_bootstrap platform start).0 ≡ none
unfolding handle_bootstrap total_replicas
start_goes_on = refl

handle_bootstrap_gate_example :
    (handle_bootstrap platform start).1.cluster.status.initialized ≡ true
handle_bootstrap_gate_example = handle_bootstrap_gate platform updates start start_goes_on
