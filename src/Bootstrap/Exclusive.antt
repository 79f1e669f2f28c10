-- ===== src/Bootstrap/Exclusive.antt =====
-- `handleBootstrap` keeps the status exclusive.
use redis_foxtrot_autoscaler.Prelude.{if_cases, Option, none, some, List, [], ◌∷◌, any, not, ◌==◌}
use redis_foxtrot_autoscaler.Prelude.Int32.{lt32}
use redis_foxtrot_autoscaler.Errors.{Error, not_found, failure}
use redis_foxtrot_autoscaler.Cluster.{RedisCluster}
use redis_foxtrot_autoscaler.Cluster.Index.{total_replicas}
use redis_foxtrot_autoscaler.Jobs.{bootstrap_name}
use redis_foxtrot_autoscaler.Jobs.Bootstrap.{bootstrap_job}
use redis_foxtrot_autoscaler.Kube.{
  State, Action, Outcome, Request, Response, ok, err, Pod, Job, JobStatus, StatefulSetView,
  Platform, UpdateLaws, also, modify_status, put_status, fetch_pods, fetch_job, fetch_stateful_set,
  key_in, pure, ◌>>=◌,
}
use redis_foxtrot_autoscaler.Standby.{is_running, detect_and_set_standby_pod}
use redis_foxtrot_autoscaler.Bootstrap.{
  mark_initialized, discover_from, discover_redis_topology, or_wait, stop_unless, adopt_existing,
  create_bootstrap, save_bootstrapped, finish_bootstrap, follow_bootstrap, await_stateful_set,
  stateful_set_name, handle_bootstrap,
}
use redis_foxtrot_autoscaler.Autoscaler.Exclusive.{
  Keeps, initialized-Keeps, discovered-Keeps, job-Keeps, detect-Keeps, saved-Keeps,
}

discover_from-Keeps :
    {h : List Request} (c : RedisCluster) (r : Response (List Pod)) (s : State)
    → Keeps h s
    → Keeps h (discover_from c r s).1
discover_from-Keeps c (err e) s k = k
discover_from-Keeps c (ok []) s k = k
discover_from-Keeps {h} c (ok (q ∷ qs)) s k =
    if_cases {A = Action (Option Error)} (λ m. Keeps h (m s).1)
      (any (λ pod. is_running pod.phase) (q ∷ qs)) _ _ (λ _. discovered-Keeps c.spec s k) (λ _. k)

module _ {F : Type 0} (p : Platform F) where
  created-Keeps :
      {h : List Request} (j : Option Job) (s : State)
      → Keeps h s
      → Keeps h (create_bootstrap p j s).1
  created-Keeps none s k = k
  created-Keeps (some j) s k = job-Keeps p j s k

  discover-Keeps :
      {h : List Request} (s : State) → Keeps h s → Keeps h (discover_redis_topology p s).1
  unfolding discover_redis_topology
  discover-Keeps s k =
      let c = s.cluster in
      discover_from-Keeps c (p.read_pods s.calls c.namespace c.spec.pod_selector)
        (fetch_pods p c.namespace c.spec.pod_selector s).1
        (record { valid = k.valid; sent = also tt k.sent })

  wait-Keeps :
      {h : List Request} (o : Option Error) (rest : Action (Option Outcome)) (s : State)
      → Keeps h s
      → Keeps h (rest s).1
      → Keeps h (or_wait p o rest s).1
  wait-Keeps (some e) rest s k r = k
  wait-Keeps none rest s k r = r

  module _ (laws : UpdateLaws p) where
    bootstrapped-Keeps :
        {h : List Request} (o : Option Error) (s : State)
        → Keeps h s
        → Keeps h (save_bootstrapped p o s).1
    bootstrapped-Keeps (some e) s k = k
    bootstrapped-Keeps none s k = saved-Keeps p laws s k

    finish-Keeps : {h : List Request} (s : State) → Keeps h s → Keeps h (finish_bootstrap p s).1
    unfolding finish_bootstrap
    finish-Keeps s k =
        let t = (modify_status mark_initialized s).1 in
        bootstrapped-Keeps (detect_and_set_standby_pod p t).0 (detect_and_set_standby_pod p t).1
          (detect-Keeps p t (initialized-Keeps s k))

    follow-Keeps :
        {h : List Request} (c : RedisCluster) (r : Response JobStatus) (s : State)
        → Keeps h s
        → Keeps h (follow_bootstrap p c r s).1
    follow-Keeps c (err not_found) s k = created-Keeps (bootstrap_job c) s k
    follow-Keeps c (err (failure n)) s k = k
    follow-Keeps {h} c (ok j) s k =
        if_cases {A = Action (Option Outcome)} (λ m. Keeps h (m s).1) (lt32 0 j.succeeded) _ _
          (λ _. finish-Keeps s k)
          (λ _.
            if_cases {A = Action (Option Outcome)} (λ m. Keeps h (m s).1) (lt32 0 j.failed) _ _
              (λ _. k) (λ _. k))

    await-Keeps :
        {h : List Request} (c : RedisCluster) (r : Response StatefulSetView) (s : State)
        → Keeps h s
        → Keeps h (await_stateful_set p c r s).1
    await-Keeps c (err e) s k = k
    await-Keeps {h} c (ok v) s k =
        let j = key_in c (bootstrap_name c) in
        let P = λ (m : Action (Option Outcome)). Keeps h (m s).1 in
        if_cases {A = Action (Option Outcome)} P (not (v.ready_replicas == total_replicas c.spec)) _
          _ (λ _. k)
          (λ _.
            if_cases {A = Action (Option Outcome)} P c.status.initialized _ _ (λ _. k)
              (λ _.
                follow-Keeps c (p.read_job s.calls j) (fetch_job p j s).1
                  (record { valid = k.valid; sent = also tt k.sent })))

    adopt-Keeps : {h : List Request} (s : State) → Keeps h s → Keeps h (adopt_existing p s).1
    unfolding adopt_existing
    adopt-Keeps s k =
        let t = (discover_redis_topology p s).1 in
        let u = (detect_and_set_standby_pod p t).1 in
        let save = put_status p >>= λ e. pure (stop_unless e none) in
        let found = discover-Keeps s k in
        let standby = detect-Keeps p t found in
        wait-Keeps (discover_redis_topology p s).0
          (detect_and_set_standby_pod p >>= λ e. or_wait p e save) t found
          (wait-Keeps (detect_and_set_standby_pod p t).0 save u standby
            (saved-Keeps p laws u standby))

    pub handle_bootstrap-Keeps :
        {h : List Request} (s : State) → Keeps h s → Keeps h (handle_bootstrap p s).1
    unfolding handle_bootstrap
    handle_bootstrap-Keeps {h} s k =
        let c = s.cluster in
        let name = key_in c (stateful_set_name p c) in
        let P = λ (m : Action (Option Outcome)). Keeps h (m s).1 in
        if_cases {A = Action (Option Outcome)} P c.spec.existing_cluster _ _
          (λ _.
            if_cases {A = Action (Option Outcome)} P c.status.initialized _ _ (λ _. k)
              (λ _. adopt-Keeps s k))
          (λ _.
            await-Keeps c (p.read_stateful_set s.calls name) (fetch_stateful_set p name s).1
              (record { valid = k.valid; sent = also tt k.sent }))
