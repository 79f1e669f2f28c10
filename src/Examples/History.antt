-- ===== src/Examples/History.antt =====
-- A server that answers with what the operator has saved, and the history of one round on it.
use mathlib.Core.List.{Memᴰ}
use mathlib.Core.Path.{subst}
use redis_foxtrot_autoscaler.Prelude.{false, ℕ, ◌≡◌, ◌⊎◌, inl, inr, refl, ap, ◌∷◌, [], List}
use redis_foxtrot_autoscaler.Cluster.{RedisCluster, RedisClusterStatus}
use redis_foxtrot_autoscaler.Kube.{
  Response, err, Platform, UpdateLaws, State, Request, Key, Vector, ok, update_status, list_pods,
  get_cluster, get_job, get_stateful_set, get_pod, get_service, delete_job, update_cluster,
  create_job, get_resource, create_resource, update_resource, query,
}
use redis_foxtrot_autoscaler.Metrics.{lookup, collect}
use redis_foxtrot_autoscaler.Metrics.Table.{last_value, collect-last_value}
use redis_foxtrot_autoscaler.Infrastructure.{reconcile_infrastructure}
use redis_foxtrot_autoscaler.Infrastructure.Order.{
  Maintained, objects, reconcile_infrastructure-Maintained, Adopted,
  reconcile_infrastructure-Adopted,
}
use redis_foxtrot_autoscaler.Autoscaler.Machine.{IsExclusive}
use redis_foxtrot_autoscaler.Reconcile.{reconcile}
use redis_foxtrot_autoscaler.Reconcile.History.{
  IsFresh, OnlyWriter, History, begin, round, every_save-IsExclusive,
}
use redis_foxtrot_autoscaler.Cluster.Spec.{set_defaults, set_spec_defaults, validate_spec}
use redis_foxtrot_autoscaler.Infrastructure.{reconcile_owned, reconcile_resource}
use redis_foxtrot_autoscaler.Bootstrap.{handle_bootstrap}
use redis_foxtrot_autoscaler.Cluster.Index.{
  total_replicas, standby_pod_name, standby_index, pod_name,
}
use redis_foxtrot_autoscaler.Reconcile.{ensure_standby, scale_or_wait}
use redis_foxtrot_autoscaler.Autoscaler.{handle_auto_scaling, monitor_metrics, when_idle, decide}
use redis_foxtrot_autoscaler.Health.{
  is_cluster_healthy_for_scaling, check_cooldown_period, cooldown_at, check_pod_count, count_pods,
  judge_pods, all_ready, check_no_jobs_running, check_job_status, judge_job, is_job_running,
  running_job,
}
use redis_foxtrot_autoscaler.Standby.{check_and_update_standby_pod, detect_and_set_standby_pod}
use redis_foxtrot_autoscaler.Metrics.{
  query_pod_metrics, query_cpu_metrics, query_memory_metrics, insert, join_metrics,
}
use redis_foxtrot_autoscaler.Decision.{check_scale_up, is_overloaded, watch_all, reason_of}
use redis_foxtrot_autoscaler.Trigger.{trigger_scale_up}
use redis_foxtrot_autoscaler.Jobs.{get_labels}
use redis_foxtrot_autoscaler.Prelude.Decimal.{format, render, digits, digit_char}
use redis_foxtrot_autoscaler.Examples.World.{pod, platform, start, cluster, number}

-- The newest status that was sent; the defaults give each master a replica.
abbrev latest : List Request → RedisCluster
latest [] = cluster
latest (update_status c ∷ h) = c
latest (q ∷ h) = latest h

abbrev remembering : Platform ℕ
remembering = record platform {
  read_cluster = λ h k. ok (latest h);
  read_stateful_set = λ h k. ok (record { replicas = 6; ready_replicas = 6 });
  read_pods = λ h ns ls. ok (
      pod "redis-0"
      ∷ pod "redis-1"
      ∷ pod "redis-2"
      ∷ pod "redis-3"
      ∷ pod "redis-4"
      ∷ pod "redis-5"
      ∷ []);
}

laws : UpdateLaws remembering
laws = record { cluster_kept = λ h c c' e. cc; status_kept = λ h c c' e. cc }

cluster-IsFresh : IsFresh cluster.status
cluster-IsFresh = record { draining = refl; resharding = refl; provisioning = refl }

known_later :
    {q : Request} {st : RedisClusterStatus} {h : List Request}
    → IsFresh st ⊎ ((c : RedisCluster) × Memᴰ (update_status c) h × (st ≡ c.status))
    → IsFresh st ⊎ ((c : RedisCluster) × Memᴰ (update_status c) (q ∷ h) × (st ≡ c.status))
known_later (inl f) = inl f
known_later (inr (c, m, e)) = inr (c, Memᴰ.tail m, e)

latest_known :
    (h : List Request)
    → IsFresh (latest h).status
      ⊎ ((c : RedisCluster) × Memᴰ (update_status c) h × ((latest h).status ≡ c.status))
latest_known [] = inl cluster-IsFresh
latest_known (update_status c ∷ h) = inr (c, Memᴰ.head refl, refl)
latest_known (get_cluster x ∷ h) = known_later (latest_known h)
latest_known (get_job x ∷ h) = known_later (latest_known h)
latest_known (get_stateful_set x ∷ h) = known_later (latest_known h)
latest_known (get_pod x ∷ h) = known_later (latest_known h)
latest_known (get_service x ∷ h) = known_later (latest_known h)
latest_known (delete_job x ∷ h) = known_later (latest_known h)
latest_known (update_cluster x ∷ h) = known_later (latest_known h)
latest_known (create_job x ∷ h) = known_later (latest_known h)
latest_known (get_resource x ∷ h) = known_later (latest_known h)
latest_known (create_resource x ∷ h) = known_later (latest_known h)
latest_known (update_resource x ∷ h) = known_later (latest_known h)
latest_known (query x ∷ h) = known_later (latest_known h)
latest_known (list_pods ns ls ∷ h) = known_later (latest_known h)

abbrev from_ok : Response RedisCluster → RedisCluster
from_ok (ok c) = c
from_ok (err e) = cluster

known_as :
    (h : List Request) (c : RedisCluster)
    → ok (latest h) ≡ ok c
    → IsFresh c.status ⊎ ((c' : RedisCluster) × Memᴰ (update_status c') h × (c.status ≡ c'.status))
known_as h c e =
    subst
      (λ (x : RedisCluster).
        IsFresh x.status
        ⊎ ((c' : RedisCluster) × Memᴰ (update_status c') h × (x.status ≡ c'.status)))
      (ap from_ok e) (latest_known h)

only : OnlyWriter remembering
only = record { origin = λ h k c e. known_as h c e }

abbrev key : Key
key = record { name = "redis"; namespace = "default" }

abbrev after_round : State
after_round = (reconcile remembering key start).1

past : History remembering after_round.calls
past = round key cluster begin

saved : Memᴰ (update_status after_round.cluster) after_round.calls
unfolding reconcile set_defaults set_spec_defaults validate_spec reconcile_infrastructure
    reconcile_owned reconcile_resource handle_bootstrap total_replicas ensure_standby scale_or_wait
    handle_auto_scaling monitor_metrics is_cluster_healthy_for_scaling check_cooldown_period
    cooldown_at check_pod_count count_pods judge_pods all_ready check_no_jobs_running
    check_job_status judge_job is_job_running running_job check_and_update_standby_pod
    detect_and_set_standby_pod when_idle query_pod_metrics query_cpu_metrics query_memory_metrics
    collect insert lookup join_metrics decide check_scale_up is_overloaded watch_all reason_of
    trigger_scale_up get_labels standby_pod_name standby_index pod_name format render digits
    digit_char
saved = Memᴰ.head refl

every_save-IsExclusive_example : IsExclusive after_round.cluster.status
every_save-IsExclusive_example =
    every_save-IsExclusive remembering laws only past after_round.cluster saved

abbrev samples : Vector ℕ
samples = ("redis-0", number 10) ∷ ("redis-1", number 20) ∷ ("redis-0", number 30) ∷ []

collect-last_value_example : lookup "redis-0" (collect samples []) ≡ last_value "redis-0" samples
collect-last_value_example = collect-last_value "redis-0" samples

reconcile_infrastructure-Maintained_example :
    let (e, t) = reconcile_infrastructure platform start in
    Maintained platform cluster (objects cluster) [] e t.calls
reconcile_infrastructure-Maintained_example =
    reconcile_infrastructure-Maintained platform start refl

abbrev existing : State
existing = record start {
  cluster = record cluster { spec = record (cluster.spec) { manage_stateful_set = false } };
}

reconcile_infrastructure-Adopted_example :
    let (e, t) = reconcile_infrastructure platform existing in
    Adopted platform existing.cluster [] e t.calls
reconcile_infrastructure-Adopted_example = reconcile_infrastructure-Adopted platform existing refl
