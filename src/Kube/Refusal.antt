-- ===== src/Kube/Refusal.antt =====
-- A server that takes the specs and refuses the statuses, and jobs that stay until they are deleted: what
-- a round leaves behind whose status cannot be saved.
use redis_foxtrot_autoscaler.Prelude.{◌≡◌, ◌≢◌, refl, ap, ◌∙◌, true, List, ◌∷◌}
use redis_foxtrot_autoscaler.Prelude.Int32.{lt32}
use redis_foxtrot_autoscaler.Errors.{ApiError}
use redis_foxtrot_autoscaler.Cluster.{RedisCluster, RedisClusterSpec}
use redis_foxtrot_autoscaler.Kube.Objects.{Key, JobStatus}
use redis_foxtrot_autoscaler.Kube.Server.{
  Platform, Request, update_cluster, update_status, get_cluster, get_job, get_stateful_set, get_pod,
  get_service, delete_job, list_pods, create_job, get_resource, create_resource, update_resource,
  query, ok, err,
}
use redis_foxtrot_autoscaler.Kube.Monad.{
  State, Action, Outcome, modify_spec, put_status, put_cluster, or_else, fail_api,
}
use redis_foxtrot_autoscaler.Kube.Writes.{Sends}
use redis_foxtrot_autoscaler.Kube.Held.{held, wrote, Synced, take_spec, take_status}

-- A request that does not delete the job.
unfoldable pub Keeps : Key → Request → Type 0
Keeps k (delete_job j) = k ≢ j
Keeps k (update_cluster c) = Unit
Keeps k (update_status c) = Unit
Keeps k (get_cluster j) = Unit
Keeps k (get_job j) = Unit
Keeps k (get_stateful_set j) = Unit
Keeps k (get_pod j) = Unit
Keeps k (get_service j) = Unit
Keeps k (list_pods ns ls) = Unit
Keeps k (create_job j) = Unit
Keeps k (get_resource x) = Unit
Keeps k (create_resource x) = Unit
Keeps k (update_resource x) = Unit
Keeps k (query text) = Unit

module _ {F : Type 0} (p : Platform F) where
  -- A job that has succeeded is answered the same until it is deleted.
  pub record JobsStay : Type 0 where
    pub stays :
        {k : Key} {h h' : List Request} {j : JobStatus}
        → Sends (Keeps k) h h'
        → p.read_job h k ≡ ok j
        → lt32 0 j.succeeded ≡ true
        → p.read_job h' k ≡ ok j

  pub record Refuses (e : ApiError) : Type 0 where
    pub spec : (h : List Request) (c : RedisCluster) → p.write_cluster h c ≡ ok c
    pub status : (h : List Request) (c : RedisCluster) → p.write_status h c ≡ err e

  module _ (e : ApiError) (refuses : Refuses e) where
    -- A refused status ends the round: it is the last thing sent, and is not held.
    pub status_stops :
        (next : Action Outcome) (s : State)
        → or_else (put_status p) fail_api next s
          ≡ (fail_api e, record s { calls = update_status s.cluster ∷ s.calls })
    status_stops next s = rw (refuses.status s.calls s.cluster) refl

    pub refused_held :
        (o : RedisCluster) (s : State)
        → held p o (update_status s.cluster ∷ s.calls) ≡ held p o s.calls
    unfolding held wrote
    refused_held o s =
        ap (λ r. take_status (held p o s.calls) s.cluster r) (refuses.status s.calls s.cluster)

    -- After a taken spec the round goes on, and the spec is held.
    pub spec_goes :
        (next : Action Outcome) (s : State)
        → or_else (put_cluster p) fail_api next s
          ≡ next (record s { calls = update_cluster s.cluster ∷ s.calls })
    spec_goes next s = rw (refuses.spec s.calls s.cluster) refl

    pub taken_held :
        (o : RedisCluster) (f : RedisClusterSpec → RedisClusterSpec) (s : State)
        → Synced p o s
        → let s' = (modify_spec f s).1 in
          Synced p o (record s' { calls = update_cluster s'.cluster ∷ s'.calls })
    unfolding held wrote
    taken_held o f s synced =
        let s' = (modify_spec f s).1 in
        ap (λ r. take_spec (held p o s.calls) s'.cluster r) (refuses.spec s'.calls s'.cluster)
        ∙ ap (λ (c : RedisCluster). record c { spec = f s.cluster.spec }) synced
