-- ===== src/Bootstrap/Gate.antt =====
-- When `handleBootstrap` lets the round go on.
use redis_foxtrot_autoscaler.Prelude.{
  ◌≡◌, ◌∙◌, refl, ap, if_cases, true, not, ◌==◌, Option, none, some, List, [], ◌∷◌, any,
}
use redis_foxtrot_autoscaler.Prelude.Int32.{lt32}
use redis_foxtrot_autoscaler.Errors.{Error, ApiError, not_found, failure}
use redis_foxtrot_autoscaler.Cluster.{RedisCluster}
use redis_foxtrot_autoscaler.Cluster.Index.{total_replicas}
use redis_foxtrot_autoscaler.Jobs.{bootstrap_name}
use redis_foxtrot_autoscaler.Jobs.Bootstrap.{bootstrap_job}
use redis_foxtrot_autoscaler.Kube.{
  State, Action, Outcome, Response, ok, err, Pod, Job, JobStatus, StatefulSetView, Platform,
  UpdateLaws, put_status, put_status-status, fetch_pods, fetch_job, fetch_stateful_set, key_in,
  pure, ◌>>=◌, modify_status, done,
}
use redis_foxtrot_autoscaler.Standby.{is_running, detect_and_set_standby_pod}
use redis_foxtrot_autoscaler.Standby.Effects.{detect-Detects}
use redis_foxtrot_autoscaler.Bootstrap.{
  mark_initialized, discover_from, discover_redis_topology, or_wait, stop_unless, adopt_existing,
  create_bootstrap, save_bootstrapped, finish_bootstrap, follow_bootstrap, await_stateful_set,
  stateful_set_name, handle_bootstrap,
}

-- Where the round goes on, the status is initialised.
abbrev GoesOn : Option Outcome × State → Type 0
GoesOn r = r.0 ≡ none → r.1.cluster.status.initialized ≡ true

discovered :
    (c : RedisCluster) (r : Response (List Pod)) (s : State)
    → (discover_from c r s).0 ≡ none
    → (discover_from c r s).1.cluster.status.initialized ≡ true
discovered c (err e) s h = cc
discovered c (ok []) s h = cc
discovered c (ok (q ∷ qs)) s h =
    if_cases {A = Action (Option Error)}
      (λ m. (m s).0 ≡ none → (m s).1.cluster.status.initialized ≡ true)
      (any (λ pod. is_running pod.phase) (q ∷ qs)) _ _ (λ _ _. refl) (λ _ k. cc) h

module _ {F : Type 0} (p : Platform F) where
  stopped : (m : Option ApiError) (o : Outcome) (s : State) → GoesOn (stop_unless m (some o), s)
  stopped none o s h = cc
  stopped (some e) o s h = cc

  created-GoesOn : (j : Option Job) (s : State) → GoesOn (create_bootstrap p j s)
  created-GoesOn none s h = cc
  created-GoesOn (some j) s h = cc

  bootstrapped-GoesOn : (o : Option Error) (s : State) → GoesOn (save_bootstrapped p o s)
  bootstrapped-GoesOn (some e) s h = cc
  bootstrapped-GoesOn none s h = stopped (put_status p s).0 done (put_status p s).1 h

  follow-GoesOn :
      (c : RedisCluster) (r : Response JobStatus) (s : State) → GoesOn (follow_bootstrap p c r s)
  unfolding finish_bootstrap
  follow-GoesOn c (err not_found) s = created-GoesOn (bootstrap_job c) s
  follow-GoesOn c (err (failure n)) s = λ h. cc
  follow-GoesOn c (ok j) s =
      if_cases {A = Action (Option Outcome)} (λ m. GoesOn (m s)) (lt32 0 j.succeeded) _ _
        (λ _.
          bootstrapped-GoesOn (detect_and_set_standby_pod p (modify_status mark_initialized s).1).0
            (detect_and_set_standby_pod p (modify_status mark_initialized s).1).1)
        (λ _.
          if_cases {A = Action (Option Outcome)} (λ m. GoesOn (m s)) (lt32 0 j.failed) _ _
            (λ _ h. cc) (λ _ h. cc))

  await-GoesOn :
      (r : Response StatefulSetView) (s : State) → GoesOn (await_stateful_set p s.cluster r s)
  await-GoesOn (err e) s = λ h. cc
  await-GoesOn (ok v) s =
      let k = key_in s.cluster (bootstrap_name s.cluster) in
      if_cases {A = Action (Option Outcome)} (λ m. GoesOn (m s))
        (not (v.ready_replicas == total_replicas s.cluster.spec)) _ _ (λ _ h. cc)
        (λ _.
          if_cases {A = Action (Option Outcome)} (λ m. GoesOn (m s)) s.cluster.status.initialized _
            _ (λ i h. i) (λ _. follow-GoesOn s.cluster (p.read_job s.calls k) (fetch_job p k s).1))

  module _ (laws : UpdateLaws p) where
    saved-GoesOn :
        (o : Option Error) (s : State)
        → s.cluster.status.initialized ≡ true
        → GoesOn (or_wait p o (put_status p >>= λ e. pure (stop_unless e none)) s)
    saved-GoesOn (some e) s i h = cc
    saved-GoesOn none s i h = ap (λ st. st.initialized) (put_status-status p laws s) ∙ i

    adopted-GoesOn :
        (o : Option Error) (s : State)
        → (o ≡ none → s.cluster.status.initialized ≡ true)
        → GoesOn (
            or_wait p o
              (detect_and_set_standby_pod p >>= λ e.
                or_wait p e (put_status p >>= λ e. pure (stop_unless e none)))
              s)
    adopted-GoesOn (some e) s i = λ h. cc
    adopted-GoesOn none s i =
        saved-GoesOn (detect_and_set_standby_pod p s).0 (detect_and_set_standby_pod p s).1
          (ap (λ (c : RedisCluster). c.status.initialized) (detect-Detects p s).result ∙ i refl)

    -- Where handleBootstrap lets the round go on, the status in memory is initialised, as long as
    -- a successful update answers with what was sent.
    pub handle_bootstrap_gate :
        (s : State)
        → (handle_bootstrap p s).0 ≡ none
        → (handle_bootstrap p s).1.cluster.status.initialized ≡ true
    unfolding handle_bootstrap adopt_existing discover_redis_topology
    handle_bootstrap_gate s =
        let c = s.cluster in
        let k = key_in c (stateful_set_name p c) in
        let t = (fetch_pods p c.namespace c.spec.pod_selector s).1 in
        let r = p.read_pods s.calls c.namespace c.spec.pod_selector in
        if_cases {A = Action (Option Outcome)} (λ m. GoesOn (m s)) c.spec.existing_cluster _ _
          (λ _.
            if_cases {A = Action (Option Outcome)} (λ m. GoesOn (m s)) c.status.initialized _ _
              (λ i h. i)
              (λ _.
                adopted-GoesOn (discover_from c r t).0 (discover_from c r t).1 (discovered c r t)))
          (λ _. await-GoesOn (p.read_stateful_set s.calls k) (fetch_stateful_set p k s).1)
