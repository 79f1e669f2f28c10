-- ===== src/Infrastructure/Effects.antt =====
-- Creating a job and keeping a resource leave the cluster object alone.
use redis_foxtrot_autoscaler.Prelude.{◌≡◌, refl, Option, none, some}
use redis_foxtrot_autoscaler.Errors.{ApiError, not_found, failure}
use redis_foxtrot_autoscaler.Kube.{State, Job, Resource, Response, ok, err, Platform, Action}
use redis_foxtrot_autoscaler.Infrastructure.{
  create_or_update, reconcile_resource, if_owned, reconcile_owned, create_owned_job, resource_name,
}

module _ {F : Type 0} (p : Platform F) where
  create_or_update-cluster :
      (x : Resource) (r : Response (Unit {0})) (s : State)
      → (create_or_update p x r s).1.cluster ≡ s.cluster
  create_or_update-cluster x (err not_found) s = refl
  create_or_update-cluster x (err (failure n)) s = refl
  create_or_update-cluster x (ok _) s = refl

  if_owned-cluster :
      (o : Option ApiError) (m : Action (Option ApiError)) (s : State)
      → (m s).1.cluster ≡ s.cluster
      → (if_owned p o m s).1.cluster ≡ s.cluster
  if_owned-cluster none m s h = h
  if_owned-cluster (some e) m s h = refl

  pub reconcile_owned-cluster :
      (x : Resource) (s : State) → (reconcile_owned p x s).1.cluster ≡ s.cluster
  unfolding reconcile_owned reconcile_resource
  reconcile_owned-cluster x s =
      if_owned-cluster (p.set_owner s.cluster (resource_name x)) (reconcile_resource p x) s
        (create_or_update-cluster x _ _)

  pub create_owned_job-cluster :
      (j : Job) (s : State) → (create_owned_job p j s).1.cluster ≡ s.cluster
  unfolding create_owned_job
  create_owned_job-cluster j s = if_owned-cluster (p.set_owner s.cluster j.name) _ s refl
