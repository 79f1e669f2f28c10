-- ===== src/Infrastructure/Writes.antt =====
-- What the writing of one object sends.
use redis_foxtrot_autoscaler.Prelude.{◌∙◌, sym, refl, Option, none, some}
use redis_foxtrot_autoscaler.Errors.{ApiError, not_found, failure}
use redis_foxtrot_autoscaler.Kube.{
  State, Request, Response, ok, err, Job, Resource, Platform, create_job, get_resource,
  create_resource, update_resource, fetch_resource, key_of, Sends, nothing, also, then-Sends,
  make_job, Silent, Synced, Sends-held, wrote,
}
use redis_foxtrot_autoscaler.Cluster.{RedisCluster}
use redis_foxtrot_autoscaler.Infrastructure.Effects.{reconcile_owned-cluster}
use redis_foxtrot_autoscaler.Infrastructure.{
  resource_name, create_or_update, reconcile_resource, if_owned, reconcile_owned, create_owned_job,
}

module _ {F : Type 0} (p : Platform F) (R : Request → Type 0) where
  module _ (x : Resource) (read : R (get_resource x)) (create : R (create_resource x))
      (update : R (update_resource x)) where
    create_or_update-Sends :
        (r : Response (Unit {0})) (s : State) → Sends R s.calls (create_or_update p x r s).1.calls
    create_or_update-Sends (err not_found) s = also create nothing
    create_or_update-Sends (err (failure n)) s = nothing
    create_or_update-Sends (ok u) s = also update nothing

    if_owned-Sends :
        (o : Option ApiError) (s : State)
        → Sends R s.calls (if_owned p o (reconcile_resource p x) s).1.calls
    unfolding reconcile_resource
    if_owned-Sends none s =
        then-Sends (also read nothing)
          (create_or_update-Sends (p.read_resource s.calls x) (fetch_resource p x s).1)
    if_owned-Sends (some e) s = nothing

    pub reconcile_owned-Sends : (s : State) → Sends R s.calls (reconcile_owned p x s).1.calls
    unfolding reconcile_owned
    reconcile_owned-Sends s = if_owned-Sends (p.set_owner s.cluster (resource_name x)) s

  owned_job-Sends :
      (j : Job) (o : Option ApiError) (s : State)
      → R (create_job j)
      → Sends R s.calls (if_owned p o (make_job p j) s).1.calls
  owned_job-Sends j none s r = also r nothing
  owned_job-Sends j (some e) s r = nothing

  pub create_owned_job-Sends :
      (j : Job) (s : State)
      → R (create_job (record j { owner = some (key_of s.cluster) }))
      → Sends R s.calls (create_owned_job p j s).1.calls
  unfolding create_owned_job
  create_owned_job-Sends j s r =
      owned_job-Sends (record j { owner = some (key_of s.cluster) }) (p.set_owner s.cluster j.name)
        s r

-- Keeping a resource neither writes the custom resource nor changes the object in memory.
pub reconcile_owned-Synced :
    {F : Type 0} (p : Platform F) (c : RedisCluster) (x : Resource) (s : State)
    → Synced p c s
    → Synced p c (reconcile_owned p x s).1
unfolding wrote
reconcile_owned-Synced p c x s synced =
    Sends-held p c
      (reconcile_owned-Sends p (Silent p) x (λ h b. refl) (λ h b. refl) (λ h b. refl) s)
    ∙ synced
    ∙ sym (reconcile_owned-cluster p x s)
