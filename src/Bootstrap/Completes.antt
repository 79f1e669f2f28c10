-- ===== src/Bootstrap/Completes.antt =====
-- A bootstrap that has worked: the status is saved as initialised, with its standby.
use redis_foxtrot_autoscaler.Prelude.{
  ◌≡◌, ◌∙◌, refl, ap, true, false, Option, none, some, List, ◌∷◌, if_true, if_false, not_same,
}
use redis_foxtrot_autoscaler.Prelude.Int32.{Int32, lt32}
use redis_foxtrot_autoscaler.Errors.{Error}
use redis_foxtrot_autoscaler.Cluster.{RedisCluster}
use redis_foxtrot_autoscaler.Cluster.Index.{standby_pod_name, total_replicas}
use redis_foxtrot_autoscaler.Jobs.{bootstrap_name}
use redis_foxtrot_autoscaler.Kube.{
  Action, State, Outcome, done, JobStatus, Request, get_job, get_stateful_set, update_status, ok,
  Platform, Accepts, key_in, error_of, answered,
}
use redis_foxtrot_autoscaler.Standby.Effects.{noted}
use redis_foxtrot_autoscaler.Standby.Finds.{IsUp, looked_up, standby_found}
use redis_foxtrot_autoscaler.Bootstrap.{
  mark_initialized, stop_unless, save_bootstrapped, finish_bootstrap, follow_bootstrap,
  await_stateful_set, stateful_set_name, handle_bootstrap,
}

abbrev pub marked : RedisCluster → RedisCluster
marked c = record c { status = mark_initialized c.status }

abbrev pub bootstrapped : RedisCluster → RedisCluster
bootstrapped c = noted (marked c) (standby_pod_name (marked c))

module _ {F : Type 0} (p : Platform F) where
  abbrev asked_set : RedisCluster → List Request → List Request
  asked_set c h = get_stateful_set (key_in c (stateful_set_name p c)) ∷ h

  abbrev asked_job : RedisCluster → List Request → List Request
  asked_job c h = get_job (key_in c (bootstrap_name c)) ∷ asked_set c h

  -- To a round that begins after the calls `h`, all pods of a new cluster are ready, the bootstrap job has
  -- succeeded, and the standby is up.
  pub record BootstrapWorks (c : RedisCluster) (h : List Request) : Type 0 where
    pub fresh : c.status.initialized ≡ false
    pub replicas : Int32
    pub pods :
        p.read_stateful_set h (key_in c (stateful_set_name p c))
        ≡ ok (record { replicas = replicas; ready_replicas = total_replicas c.spec })
    pub job : JobStatus
    pub answer : p.read_job (asked_set c h) (key_in c (bootstrap_name c)) ≡ ok job
    pub succeeded : lt32 0 job.succeeded ≡ true
    pub standby : IsUp p (marked c) (asked_job c h)

  module _ (accepts : Accepts p) where
    saved :
        (s : State)
        → save_bootstrapped p none s
          ≡ (some done, record s { calls = update_status s.cluster ∷ s.calls })
    saved s =
        ap
          (λ r. (
            stop_unless (error_of r) (some done),
            record s { cluster = answered s.cluster r; calls = update_status s.cluster ∷ s.calls },
          ))
          (accepts.status s.calls s.cluster)

    finished :
        (c : RedisCluster) (h : List Request)
        → IsUp p (marked c) h
        → finish_bootstrap p (record { cluster = c; calls = h }) ≡ (
          some done,
          record {
            cluster = bootstrapped c;
            calls = update_status (bootstrapped c) ∷ looked_up p (marked c) h;
          },
        )
    unfolding finish_bootstrap
    finished c h u =
        ap (λ (r : Option Error × State). save_bootstrapped p r.0 r.1)
          (standby_found p (marked c) h u)
        ∙ saved (record { cluster = bootstrapped c; calls = looked_up p (marked c) h })

    whole_round :
        (s : State)
        → BootstrapWorks s.cluster s.calls
        → let c = s.cluster in
          handle_bootstrap p s ≡ (
            some done,
            record {
              cluster = bootstrapped c;
              calls = update_status (bootstrapped c) ∷ looked_up p (marked c) (asked_job c s.calls);
            },
          )
    unfolding handle_bootstrap
    whole_round s w =
        let c = s.cluster in
        let t : State = record { cluster = c; calls = asked_set c s.calls } in
        let u : State = record { cluster = c; calls = asked_job c s.calls } in
        ap (λ (m : Action (Option Outcome)). m s) (if_false _ _ w.standby.managed)
        ∙ ap (λ r. await_stateful_set p c r t) w.pods
        ∙ ap (λ (m : Action (Option Outcome)). m t)
            (if_false _ _ (not_same (total_replicas c.spec)) ∙ if_false _ _ w.fresh)
        ∙ ap (λ r. follow_bootstrap p c r u) w.answer
        ∙ ap (λ (m : Action (Option Outcome)). m u) (if_true _ _ w.succeeded)
        ∙ finished c (asked_job c s.calls) w.standby

    -- Where the server accepts the updates, a round of a new managed cluster whose pods are all
    -- ready, whose bootstrap job has succeeded and whose standby is up, ends after it has sent a
    -- status that is initialised and names the standby, and that is as before otherwise.
    pub bootstrap_completes :
        (s : State)
        → BootstrapWorks s.cluster s.calls
        → let (o, t) = handle_bootstrap p s in
          (o ≡ some done)
          × (t.cluster.status ≡ record (s.cluster.status) {
            initialized = true;
            standby_pod = standby_pod_name s.cluster;
          })
          × ((h : List Request) × (t.calls ≡ update_status t.cluster ∷ h))
    unfolding handle_bootstrap standby_pod_name
    bootstrap_completes s w = rw (whole_round s w) (refl, refl, (_, refl))
