-- ===== src/Metrics/Measured.antt =====
-- Where the loads come from: the two answers of the round that measures them.
use redis_foxtrot_autoscaler.Prelude.{◌≡◌, refl, Option, none, some, List, [], ◌∷◌, String}
use redis_foxtrot_autoscaler.Errors.{ApiError, cpu_query, memory_query, no_cpu_data, no_memory_data}
use redis_foxtrot_autoscaler.Cluster.{RedisCluster}
use redis_foxtrot_autoscaler.Kube.{
  State, Platform, PodLoad, Vector, Response, ok, err, Request, query, run_query,
}
use redis_foxtrot_autoscaler.Metrics.{
  got, cpu_text, memory_text, collect, join_metrics, answer_map, with_memory, with_cpu, with_client,
  query_cpu_metrics, query_memory_metrics, query_pod_metrics,
}

-- The calls after the two queries.
abbrev pub queried : RedisCluster → List Request → List Request
queried c h = query (memory_text c) ∷ query (cpu_text c) ∷ h

module _ {F : Type 0} (p : Platform F) where
  -- The loads are the join of the samples that the server answers to the two queries, which are
  -- made after the calls `h`.
  pub record IsMeasured (c : RedisCluster) (h : List Request) (ls : List (PodLoad F)) : Type 0 where
    pub cpu : Vector F
    pub cpu_answer : p.query h (cpu_text c) ≡ ok (some cpu)
    pub memory : Vector F
    pub memory_answer : p.query (query (cpu_text c) ∷ h) (memory_text c) ≡ ok (some memory)
    pub joined :
        ls ≡ join_metrics c.status.standby_pod (collect memory []) (p.range_order (collect cpu []))

  -- The state after the two queries.
  abbrev pub asked : State → State
  asked s = record s { calls = queried s.cluster s.calls }

  memory_got :
      (c : RedisCluster) (cpu : List (String × F)) (r : Response (Option (Vector F)))
      (ls : List (PodLoad F))
      → with_memory p c cpu (answer_map memory_query no_memory_data r) ≡ got ls
      → (memory : Vector F) × (r ≡ ok (some memory))
        × (ls ≡ join_metrics c.status.standby_pod (collect memory []) (p.range_order cpu))
  memory_got c cpu (err e) ls h = cc
  memory_got c cpu (ok none) ls h = cc
  memory_got c cpu (ok (some [])) ls h = cc
  memory_got c cpu (ok (some (v ∷ vs))) ls h = (v ∷ vs, refl, cc)

  cpu_got :
      (s : State) (r : Response (Option (Vector F))) (ls : List (PodLoad F))
      → p.query s.calls (cpu_text s.cluster) ≡ r
      → let t = (run_query p (cpu_text s.cluster) s).1 in
        let m = with_cpu p s.cluster (answer_map cpu_query no_cpu_data r) in
        (m t).0 ≡ got ls → IsMeasured s.cluster s.calls ls × ((m t).1 ≡ asked s)
  unfolding query_memory_metrics
  cpu_got s (err e) ls a h = cc
  cpu_got s (ok none) ls a h = cc
  cpu_got s (ok (some [])) ls a h = cc
  cpu_got s (ok (some (v ∷ vs))) ls a h =
      let (memory, b, e) = memory_got s.cluster (collect (v ∷ vs) []) _ ls h in
      (
        record { cpu = v ∷ vs; cpu_answer = a; memory = memory; memory_answer = b; joined = e },
        refl,
      )

  client_got :
      (s : State) (o : Option ApiError) (ls : List (PodLoad F))
      → (with_client p s.cluster o s).0 ≡ got ls
      → IsMeasured s.cluster s.calls ls × ((with_client p s.cluster o s).1 ≡ asked s)
  unfolding query_cpu_metrics
  client_got s (some e) ls h = cc
  client_got s none ls h = cpu_got s (p.query s.calls (cpu_text s.cluster)) ls refl h

  -- Loads that are got are measured.
  pub got-IsMeasured :
      (s : State) (ls : List (PodLoad F))
      → (query_pod_metrics p s).0 ≡ got ls
      → IsMeasured s.cluster s.calls ls × ((query_pod_metrics p s).1 ≡ asked s)
  unfolding query_pod_metrics
  got-IsMeasured s ls h = client_got s (p.new_client s.cluster.spec.prometheus_url) ls h
