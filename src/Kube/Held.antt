-- ===== src/Kube/Held.antt =====
-- What the server holds of the custom resource: a ghost of the server, replayed from the calls with the
-- platform's answers. The status is a subresource, so that an update writes the spec, and a status
-- update the status.
use redis_foxtrot_autoscaler.Prelude.{◌≡◌, refl, ap, ◌∙◌, List, [], ◌∷◌}
use redis_foxtrot_autoscaler.Cluster.{RedisCluster, RedisClusterSpec, RedisClusterStatus}
use redis_foxtrot_autoscaler.Kube.Server.{
  Platform, Request, Response, ok, err, update_cluster, update_status, get_cluster, get_job,
  get_stateful_set, get_pod, get_service, delete_job, list_pods, create_job, get_resource,
  create_resource, update_resource, query,
}
use redis_foxtrot_autoscaler.Kube.Monad.{
  State, Action, Outcome, modify_status, modify_spec, put_status, put_cluster, or_else, fail_api,
}
use redis_foxtrot_autoscaler.Kube.Success.{Accepts, or_else-none}
use redis_foxtrot_autoscaler.Kube.Writes.{Sends, nothing, also}

-- The new part is written when the server accepts it.
abbrev pub take_spec : RedisCluster → RedisCluster → Response RedisCluster → RedisCluster
take_spec c new (ok _) = record c { spec = new.spec }
take_spec c new (err e) = c

abbrev pub take_status : RedisCluster → RedisCluster → Response RedisCluster → RedisCluster
take_status c new (ok _) = record c { status = new.status }
take_status c new (err e) = c

module _ {F : Type 0} (p : Platform F) where
  -- The object after a request that is made after the calls `h`. The calls are those of the one
  -- custom resource.
  unfoldable pub wrote : List Request → Request → RedisCluster → RedisCluster
  wrote h (update_cluster new) c = take_spec c new (p.write_cluster h new)
  wrote h (update_status new) c = take_status c new (p.write_status h new)
  wrote h (get_cluster k) c = c
  wrote h (get_job k) c = c
  wrote h (get_stateful_set k) c = c
  wrote h (get_pod k) c = c
  wrote h (get_service k) c = c
  wrote h (delete_job k) c = c
  wrote h (list_pods ns ls) c = c
  wrote h (create_job j) c = c
  wrote h (get_resource x) c = c
  wrote h (create_resource x) c = c
  wrote h (update_resource x) c = c
  wrote h (query text) c = c

  -- The object after the calls, newest first, where it was `c` before them.
  unfoldable pub held : RedisCluster → List Request → RedisCluster
  held c [] = c
  held c (q ∷ h) = wrote h q (held c h)

  -- A request that does not write the custom resource.
  abbrev pub Silent : Request → Type 0
  Silent q = (h : List Request) (c : RedisCluster) → wrote h q c ≡ c

  pub Sends-held :
      (c : RedisCluster) {h h' : List Request} → Sends Silent h h' → held c h' ≡ held c h
  unfolding held
  Sends-held c nothing = refl
  Sends-held c (also quiet sent) = quiet _ _ ∙ Sends-held c sent

  -- The object in memory is the one that the server holds.
  abbrev pub Synced : RedisCluster → State → Type 0
  Synced c s = held c s.calls ≡ s.cluster

  -- The state of a round that reads the object after the calls `h`.
  abbrev pub reads_at : RedisCluster → List Request → State
  reads_at c h = record { cluster = held c h; calls = h }

  module _ (accepts : Accepts p) (c : RedisCluster) where
    -- A changed status that is sent is held, and what follows goes on from there.
    pub status_held :
        (f : RedisClusterStatus → RedisClusterStatus) (next : Action Outcome) (s : State)
        → Synced c s
        → ((t : State) → Sends Silent t.calls (next t).1.calls)
        → held c (or_else (put_status p) fail_api next (modify_status f s).1).1.calls
          ≡ record (s.cluster) { status = f s.cluster.status }
    unfolding held wrote
    status_held f next s synced quiet =
        let s' = (modify_status f s).1 in
        let e = accepts.status s'.calls s'.cluster in
        ap (λ (r : Outcome × State). held c r.1.calls)
          (or_else-none (put_status p) fail_api next s' (rw e refl))
        ∙ Sends-held c (quiet (put_status p s').1)
        ∙ ap (λ r. take_status (held c s.calls) s'.cluster r) e
        ∙ ap (λ (x : RedisCluster). record x { status = f s.cluster.status }) synced

    -- So is a changed spec.
    pub spec_held :
        (f : RedisClusterSpec → RedisClusterSpec) (next : Action Outcome) (s : State)
        → Synced c s
        → (t : State) × (t.cluster ≡ record (s.cluster) { spec = f s.cluster.spec })
          × Synced c t
          × (or_else (put_cluster p) fail_api next (modify_spec f s).1 ≡ next t)
    unfolding held wrote
    spec_held f next s synced =
        let s' = (modify_spec f s).1 in
        let e = accepts.spec s'.calls s'.cluster in
        (
          (put_cluster p s').1,
          rw e refl,
          ap (λ r. take_spec (held c s.calls) s'.cluster r) e
              ∙ ap (λ (x : RedisCluster). record x { spec = f s.cluster.spec }) synced
              ∙ rw e refl,
          or_else-none (put_cluster p) fail_api next s' (rw e refl),
        )
