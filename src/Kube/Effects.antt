-- ===== src/Kube/Effects.antt =====
-- What the actions do to the object that `cluster` points to.
use redis_foxtrot_autoscaler.Prelude.{◌≡◌, ◌∙◌, ap, refl, ◌⊎◌, inl, inr, Option, none, some}
use redis_foxtrot_autoscaler.Errors.{ApiError}
use redis_foxtrot_autoscaler.Cluster.{RedisCluster}
use redis_foxtrot_autoscaler.Kube.Server.{Platform, Response, ok, err}
use redis_foxtrot_autoscaler.Kube.Monad.{
  State, Action, Outcome, put_status, put_cluster, or_else, resume, fail_api,
}
use redis_foxtrot_autoscaler.Kube.Laws.{UpdateLaws}

Response-cases :
    {A : Type 0} (r : Response A) → ((a : A) × (r ≡ ok a)) ⊎ ((e : ApiError) × (r ≡ err e))
Response-cases (ok a) = inl (a, refl)
Response-cases (err e) = inr (e, refl)

resume_cases {ℓ} :
    (P : State → Type ℓ) (o : Option ApiError) (bad : ApiError → Outcome) (rest : Action Outcome)
    (s : State)
    → P s
    → P (rest s).1
    → P (resume bad rest o s).1
resume_cases P none bad rest s fails goes_on = goes_on
resume_cases P (some x) bad rest s fails goes_on = fails

-- A property of the state after both answers of a write holds after `or_else`.
pub or_else_cases {ℓ} :
    (P : State → Type ℓ) (m : Action (Option ApiError)) (bad : ApiError → Outcome)
    (rest : Action Outcome) (s : State)
    → P (m s).1
    → P (rest (m s).1).1
    → P (or_else m bad rest s).1
or_else_cases P m bad rest s fails goes_on = resume_cases P (m s).0 bad rest (m s).1 fails goes_on

module _ {F : Type 0} (p : Platform F) (laws : UpdateLaws p) where
  -- A status update leaves the status, whether it succeeds or not.
  pub put_status-status : (s : State) → (put_status p s).1.cluster.status ≡ s.cluster.status
  put_status-status s = elim (Response-cases (p.write_status s.calls s.cluster)) [
    | inl (c, e) ↦ rw e (laws.status_kept s.calls s.cluster c e)
    | inr (x, e) ↦ rw e refl
  ]

  -- An update leaves the object, whether it succeeds or not.
  pub put_cluster-cluster : (s : State) → (put_cluster p s).1.cluster ≡ s.cluster
  put_cluster-cluster s = elim (Response-cases (p.write_cluster s.calls s.cluster)) [
    | inl (c, e) ↦ rw e (laws.cluster_kept s.calls s.cluster c e)
    | inr (x, e) ↦ rw e refl
  ]

  -- A method that ends by saving the status leaves the status as it sends it.
  pub save_status :
      (rest : Action Outcome) (s : State)
      → ((t : State) → (rest t).1.cluster ≡ t.cluster)
      → (or_else (put_status p) fail_api rest s).1.cluster.status ≡ s.cluster.status
  save_status rest s quiet =
      or_else_cases (λ t. t.cluster.status ≡ s.cluster.status) (put_status p) fail_api rest s
        (put_status-status s)
        (ap (λ (c : RedisCluster). c.status) (quiet (put_status p s).1) ∙ put_status-status s)
