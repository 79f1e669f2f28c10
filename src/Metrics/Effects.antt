-- ===== src/Metrics/Effects.antt =====
-- The queries leave the cluster object.
use redis_foxtrot_autoscaler.Prelude.{◌≡◌, refl, Option, none, some, List, String}
use redis_foxtrot_autoscaler.Errors.{ApiError}
use redis_foxtrot_autoscaler.Cluster.{RedisCluster}
use redis_foxtrot_autoscaler.Kube.{State, Platform, run_query}
use redis_foxtrot_autoscaler.Metrics.{
  Fallible, got, failed, cpu_text, query_cpu_metrics, query_memory_metrics, with_cpu, with_client,
  query_pod_metrics,
}

module _ {F : Type 0} (p : Platform F) where
  with_cpu-cluster :
      (c : RedisCluster) (r : Fallible (List (String × F))) (s : State)
      → (with_cpu p c r s).1.cluster ≡ s.cluster
  unfolding query_memory_metrics
  with_cpu-cluster c (failed e) s = refl
  with_cpu-cluster c (got cpu) s = refl

  with_client-cluster :
      (c : RedisCluster) (o : Option ApiError) (s : State)
      → (with_client p c o s).1.cluster ≡ s.cluster
  unfolding query_cpu_metrics
  with_client-cluster c (some e) s = refl
  with_client-cluster c none s =
      with_cpu-cluster c (query_cpu_metrics p s).0 (run_query p (cpu_text s.cluster) s).1

  pub query_pod_metrics-cluster : (s : State) → (query_pod_metrics p s).1.cluster ≡ s.cluster
  unfolding query_pod_metrics
  query_pod_metrics-cluster s =
      with_client-cluster s.cluster (p.new_client s.cluster.spec.prometheus_url) s
