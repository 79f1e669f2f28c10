-- ===== src/Examples/Scaling.antt =====
-- The autoscaler's theorems at the concrete cluster.
use redis_foxtrot_autoscaler.Prelude.Decimal.{format, digits, render, digit_char}
use redis_foxtrot_autoscaler.Prelude.{ℕ, ◌≡◌, refl, ◌⊎◌, true, List, [], ◌∷◌}
use redis_foxtrot_autoscaler.Kube.{PodLoad}
use redis_foxtrot_autoscaler.Health.{
  is_cluster_healthy_for_scaling, check_cooldown_period, cooldown_at, check_pod_count, count_pods,
  all_ready, judge_pods, check_no_jobs_running, check_job_status, judge_job,
}
use redis_foxtrot_autoscaler.Health.Sound.{IsFit, healthy-IsFit}
use redis_foxtrot_autoscaler.Health.Effects.{NotesStandby}
use redis_foxtrot_autoscaler.Standby.{detect_and_set_standby_pod, check_and_update_standby_pod}
use redis_foxtrot_autoscaler.Cluster.Index.{
  total_replicas, standby_index, standby_pod_name, pod_name,
}
use redis_foxtrot_autoscaler.Decision.{check_scale_up}
use redis_foxtrot_autoscaler.Decision.ScaleUp.{Triggers, check_scale_up-Triggers}
use redis_foxtrot_autoscaler.Autoscaler.{monitor_metrics, handle_auto_scaling}
use redis_foxtrot_autoscaler.Autoscaler.Machine.{Move}
use redis_foxtrot_autoscaler.Autoscaler.Monitor.{Chooses, before_queries, monitor_metrics_choice}
use redis_foxtrot_autoscaler.Autoscaler.Moves.{handle_auto_scaling-Move}
use redis_foxtrot_autoscaler.Examples.World.{
  platform, spec, start, cluster, status, load, updates, floats,
}

handle_auto_scaling-Move_example : Move status (handle_auto_scaling platform start).1.cluster.status
handle_auto_scaling-Move_example = handle_auto_scaling-Move platform updates start

monitor_metrics_choice_example :
    let s' = (monitor_metrics platform start).1 in
    NotesStandby platform cluster s'
    ⊎ (IsFit platform start
        × Chooses platform cluster
            (before_queries cluster (is_cluster_healthy_for_scaling platform start).1)
            s')
monitor_metrics_choice_example = monitor_metrics_choice platform updates start

start_is_healthy : (is_cluster_healthy_for_scaling platform start).0.is_healthy ≡ true
unfolding is_cluster_healthy_for_scaling check_cooldown_period cooldown_at check_pod_count
    count_pods all_ready judge_pods check_no_jobs_running check_job_status judge_job
    detect_and_set_standby_pod check_and_update_standby_pod total_replicas standby_index
    standby_pod_name pod_name format digits render digit_char
start_is_healthy = refl

healthy-IsFit_example :
    IsFit platform start × ((is_cluster_healthy_for_scaling platform start).1.cluster ≡ cluster)
healthy-IsFit_example = healthy-IsFit platform updates start start_is_healthy

abbrev loads : List (PodLoad ℕ)
loads = load "redis-0" 80 50 ∷ load "redis-1" 90 40 ∷ []

check_scale_up-Triggers_example : Triggers platform spec loads (check_scale_up platform spec loads)
check_scale_up-Triggers_example =
    check_scale_up-Triggers platform spec floats loads (refl, (refl, tt))
