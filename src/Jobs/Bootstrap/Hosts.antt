-- ===== src/Jobs/Bootstrap/Hosts.antt =====
-- The hosts of the bootstrap job: all pods before the standby, in order.
use native.Mathlib.Nat.{add-zero}
use redis_foxtrot_autoscaler.Prelude.{
  ℕ, zero, suc, ◌+◌, ◌*◌, ◌≤◌, ◌<◌, ◌≡◌, ◌∙◌, refl, sym, ap, some, List, [], ◌∷◌, ◌++◌, map, String,
  arith, lt→ltb, if_true,
}
use redis_foxtrot_autoscaler.Prelude.Int32.{Int32, add32, half}
use redis_foxtrot_autoscaler.Cluster.{RedisCluster}
use redis_foxtrot_autoscaler.Cluster.Index.{standby_index}
use redis_foxtrot_autoscaler.Cluster.Index.Bounds.{Fits, index_exact, groups_in_order}
use redis_foxtrot_autoscaler.Kube.{Job, Script, bootstrap_command}
use redis_foxtrot_autoscaler.Jobs.Bootstrap.{
  pod_address, addresses, rounds_of, join_spaces, first, job_with, bootstrap_job,
}

-- The numbers below `n`.
abbrev pub below : ℕ → List ℕ
below zero = []
below (suc n) = below n ++ (n ∷ [])

map-append : {A B : Type 0} (f : A → B) (xs ys : List A) → map f (xs ++ ys) ≡ map f xs ++ map f ys
map-append f [] ys = refl
map-append f (x ∷ xs) ys = ap (λ zs. f x ∷ zs) (map-append f xs ys)

module _ (c : RedisCluster) where
  last_address :
      (n : ℕ) (i : Int32) → addresses c (suc n) i ≡ addresses c n i ++ (pod_address c (i + n) ∷ [])
  unfolding addresses
  last_address zero i = ap (λ k. pod_address c k ∷ []) (sym (add-zero i))
  last_address (suc n) i =
      ap (λ ys. pod_address c i ∷ ys)
        (last_address n (i + 1)
          ∙ ap (λ k. addresses c n (i + 1) ++ (pod_address c k ∷ [])) (omega arith))

  addresses-below : (n : ℕ) → addresses c n 0 ≡ map (pod_address c) (below n)
  unfolding addresses
  addresses-below zero = refl
  addresses-below (suc n) =
      last_address n 0
      ∙ ap (λ k. addresses c n 0 ++ (pod_address c k ∷ [])) (omega arith)
      ∙ ap (λ xs. xs ++ (pod_address c n ∷ [])) (addresses-below n)
      ∙ sym (map-append (pod_address c) (below n) (n ∷ []))

  -- The script with these hosts.
  abbrev pub script_of : List String → Script
  script_of hosts = bootstrap_command (record {
    active_masters = c.spec.masters;
    active_hosts = join_spaces hosts;
    replicas_per_master = c.spec.replicas_per_master;
    entrypoint = pod_address c 0;
    standby_master = pod_address c (standby_index c.spec);
    standby_replica = pod_address c (add32 (standby_index c.spec) 1);
  })

  first_host : (n : ℕ) → 1 ≤ n → first (addresses c n 0) ≡ some (pod_address c 0)
  unfolding addresses
  first_host zero h = absurd (omega arith)
  first_host (suc n) h = refl

  module _ (fits : Fits c.spec) (has_masters : 1 ≤ c.spec.masters) where
    active :
        (standby_index c.spec ≡ c.spec.masters * (1 + c.spec.replicas_per_master))
        × (standby_index c.spec < half)
        × (1 ≤ standby_index c.spec)
    active =
        let (after_last, before_end, small) = groups_in_order c.spec fits has_masters in
        (
          (index_exact c.spec fits has_masters).1,
          omega (arith, before_end, small),
          omega (arith, after_last),
        )

    all_rounds : rounds_of (standby_index c.spec) ≡ standby_index c.spec
    all_rounds = if_true _ _ (lt→ltb (standby_index c.spec) half active.1)

    -- On a cluster of at least one master whose pods an int32 can count, the bootstrap job exists,
    -- and its hosts are the addresses of all pods before the standby, each once and in order, with
    -- the first as the entrypoint and the standby's address as the standby.
    pub bootstrap_job-hosts :
        (j : Job) × (bootstrap_job c ≡ some j)
        × (j.script
            ≡ script_of
                (map (pod_address c) (below (c.spec.masters * (1 + c.spec.replicas_per_master)))))
    unfolding bootstrap_job
    bootstrap_job-hosts =
        let (exact, _, positive) = active in
        (
          _,
          ap (λ n. job_with c (first (addresses c n 0))) all_rounds
              ∙ ap (job_with c) (first_host (standby_index c.spec) positive),
          ap script_of (
              ap (λ n. addresses c n 0) (all_rounds ∙ exact)
              ∙ addresses-below (c.spec.masters * (1 + c.spec.replicas_per_master))),
        )
