-- ===== src/Metrics.antt =====
-- internal/controller/autoscaler.go: `queryPodMetrics`, `queryCPUMetrics` and `queryMemoryMetrics`.
pub mod Effects
pub mod Measured
pub mod Join
pub mod Table
use redis_foxtrot_autoscaler.Prelude.{
  Option, none, some, List, [], ◌∷◌, String, ◌^^◌, if◌then◌else◌,
}
use redis_foxtrot_autoscaler.Prelude.Text.{str_eq}
use redis_foxtrot_autoscaler.Errors.{
  Error, ApiError, prometheus_client, cpu_query, memory_query, no_cpu_data, no_memory_data,
}
use redis_foxtrot_autoscaler.Cluster.{RedisCluster}
use redis_foxtrot_autoscaler.Kube.{
  Action, pure, ◌>>=◌, current, Response, ok, err, Platform, PodLoad, Vector, run_query,
}

-- A value or an error.
pub data Fallible (A : Type 0) : Type 0 where
  got : A → Fallible A
  failed : Error → Fallible A

abbrev pub cpu_text : RedisCluster → String
cpu_text c =
    "rate(container_cpu_usage_seconds_total{container=\"redis\", pod=~\"^"
    ^^ (c.name
        ^^ ("-.*\", namespace=\""
            ^^ (c.namespace
                ^^ ("\", service=\"kps-kube-prometheus-stack-kubelet\"}[1m]) * 100\n"
                    ^^ "\t\t and on(pod) redis_instance_info{role=\"master\"}"))))

abbrev pods_of : RedisCluster → String
pods_of c = "pod=~\"^" ^^ (c.name ^^ ("-.*\", namespace=\"" ^^ (c.namespace ^^ "\"}) by (pod)\n")))

abbrev pub memory_text : RedisCluster → String
memory_text c =
    "(\n\t\t  sum(container_memory_usage_bytes{container=\"redis\", "
    ^^ (pods_of c
        ^^ ("\t\t  /\n\t\t  sum(kube_pod_container_resource_limits{resource=\"memory\", "
            ^^ (pods_of c ^^ "\t\t) * 100\n\t\tand on(pod) redis_instance_info{role=\"master\"}")))

module _ {F : Type 0} where
  -- `m[pod] = value`
  unfoldable pub insert : String → F → List (String × F) → List (String × F)
  insert k v [] = (k, v) ∷ []
  insert k v ((j, w) ∷ m) = if str_eq k j then (k, v) ∷ m else (j, w) ∷ insert k v m

  unfoldable pub lookup : String → List (String × F) → Option F
  lookup k [] = none
  lookup k ((j, w) ∷ m) = if str_eq k j then some w else lookup k m

  -- The loop over the samples; a later sample of a pod overwrites an earlier one.
  unfoldable pub collect : Vector F → List (String × F) → List (String × F)
  collect [] m = m
  collect ((k, v) ∷ vs) m = collect vs (insert k v m)

  abbrev samples : Error → Option (Vector F) → Fallible (List (String × F))
  samples e none = failed e
  samples e (some []) = failed e
  samples e (some (v ∷ vs)) = got (collect (v ∷ vs) [])

  abbrev answer_map :
      (ApiError → Error) → Error → Response (Option (Vector F)) → Fallible (List (String × F))
  answer_map wrap empty (err e) = failed (wrap e)
  answer_map wrap empty (ok v) = samples empty v

  abbrev keep_load : String → F → Option F → List (PodLoad F) → List (PodLoad F)
  keep_load pod cpu none rest = rest
  keep_load pod cpu (some memory) rest =
      record { pod_name = pod; cpu_usage = cpu; memory_usage = memory } ∷ rest

  -- The loop over the CPU map: the standby and pods without memory data are left out.
  unfoldable pub join_metrics : String → List (String × F) → List (String × F) → List (PodLoad F)
  join_metrics standby memory [] = []
  join_metrics standby memory ((pod, cpu) ∷ rest) =
      let more = join_metrics standby memory rest in
      if str_eq pod standby then more else keep_load pod cpu (lookup pod memory) more

module _ {F : Type 0} (p : Platform F) where
  unfoldable pub query_cpu_metrics : Action (Fallible (List (String × F)))
  query_cpu_metrics = do
    c ← current
    r ← run_query p (cpu_text c)
    pure (answer_map cpu_query no_cpu_data r)

  unfoldable pub query_memory_metrics : Action (Fallible (List (String × F)))
  query_memory_metrics = do
    c ← current
    r ← run_query p (memory_text c)
    pure (answer_map memory_query no_memory_data r)

  abbrev pub with_memory :
      RedisCluster → List (String × F) → Fallible (List (String × F)) → Fallible (List (PodLoad F))
  with_memory c cpu (failed e) = failed e
  with_memory c cpu (got memory) =
      got (join_metrics c.status.standby_pod memory (p.range_order cpu))

  abbrev pub with_cpu :
      RedisCluster → Fallible (List (String × F)) → Action (Fallible (List (PodLoad F)))
  with_cpu c (failed e) = pure (failed e)
  with_cpu c (got cpu) = do r ← query_memory_metrics; pure (with_memory c cpu r)

  abbrev pub with_client : RedisCluster → Option ApiError → Action (Fallible (List (PodLoad F)))
  with_client c (some e) = pure (failed (prometheus_client e))
  with_client c none = query_cpu_metrics >>= with_cpu c

  unfoldable pub query_pod_metrics : Action (Fallible (List (PodLoad F)))
  query_pod_metrics = do c ← current; with_client c (p.new_client c.spec.prometheus_url)
