-- ===== src/Kube/Success.antt =====
-- A server that accepts every update as it is sent.
use redis_foxtrot_autoscaler.Prelude.{◌≡◌, refl, ap, ◌∙◌, Option, none, List}
use redis_foxtrot_autoscaler.Errors.{ApiError}
use redis_foxtrot_autoscaler.Cluster.{RedisCluster}
use redis_foxtrot_autoscaler.Kube.Server.{Platform, Request, ok}
use redis_foxtrot_autoscaler.Kube.Monad.{
  State, Action, Outcome, put_status, put_cluster, or_else, resume, fail_api,
}

pub record Accepts {F : Type 0} (p : Platform F) : Type 0 where
  pub spec : (h : List Request) (c : RedisCluster) → p.write_cluster h c ≡ ok c
  pub status : (h : List Request) (c : RedisCluster) → p.write_status h c ≡ ok c

pub or_else-none :
    (m : Action (Option ApiError)) (bad : ApiError → Outcome) (next : Action Outcome) (s : State)
    → (m s).0 ≡ none
    → or_else m bad next s ≡ next (m s).1
or_else-none m bad next s h = ap (λ o. resume bad next o (m s).1) h

module _ {F : Type 0} (p : Platform F) (accepts : Accepts p) where
  -- After an accepted update the round goes on with the object that it has sent.
  pub saved_status :
      (next : Action Outcome) (s : State)
      → ((t : State) → (next t).1.cluster ≡ t.cluster)
      → (or_else (put_status p) fail_api next s).1.cluster ≡ s.cluster
  saved_status next s quiet =
      let e = accepts.status s.calls s.cluster in
      ap (λ (r : Outcome × State). r.1.cluster)
        (or_else-none (put_status p) fail_api next s (rw e refl))
      ∙ (quiet (put_status p s).1 ∙ rw e refl)

  pub saved_cluster :
      (next : Action Outcome) (s : State)
      → (t : State) × (t.cluster ≡ s.cluster)
        × ((or_else (put_cluster p) fail_api next s).1 ≡ (next t).1)
  saved_cluster next s =
      let e = accepts.spec s.calls s.cluster in
      (
        (put_cluster p s).1,
        rw e refl,
        ap (λ (r : Outcome × State). r.1)
            (or_else-none (put_cluster p) fail_api next s (rw e refl)),
      )
