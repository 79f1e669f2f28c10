-- ===== src/Examples/Retries.antt =====
-- A reshard and a drain of the concrete cluster whose status is refused.
use redis_foxtrot_autoscaler.Prelude.{
  Bool, true, false, ◌&&◌, if◌then◌else◌, Bool-cases, inl, inr, ◌∙◌, arith, ℕ, ◌≡◌, ◌∷◌, [], refl,
  some, List,
}
use redis_foxtrot_autoscaler.Errors.{failure, api, not_found}
use redis_foxtrot_autoscaler.Prelude.Text.{str_eq, str_same}
use redis_foxtrot_autoscaler.Cluster.Index.{total_replicas}
use redis_foxtrot_autoscaler.Kube.{
  Platform, StatefulSetView, Request, ok, err, Refuses, JobsStay, key_of, held, Synced, reads_at,
  nothing, Key, JobStatus, Response, Sends, Keeps, also, delete_job, update_cluster, update_status,
  get_cluster, get_job, get_stateful_set, get_pod, get_service, list_pods, create_job, get_resource,
  create_resource, update_resource, query,
}
use redis_foxtrot_autoscaler.Reshard.{check_resharding_status, finish_reshard, save_provisioning}
use redis_foxtrot_autoscaler.Reshard.Writes.{grown}
use redis_foxtrot_autoscaler.Reshard.Grows.{ReshardWorks}
use redis_foxtrot_autoscaler.Reshard.Retries.{reshard_counted_twice}
use redis_foxtrot_autoscaler.Drain.Shrinks.{DrainWorks}
use redis_foxtrot_autoscaler.Drain.Writes.{shrunk}
use redis_foxtrot_autoscaler.Drain.{check_drain_status}
use redis_foxtrot_autoscaler.Drain.Retries.{drain_counted_twice}
use redis_foxtrot_autoscaler.Examples.Cycle.{succeeded, working, growing, shrinking}

-- The server takes the specs and refuses the statuses; the new pods are there in the second round.
abbrev counted : List Request → StatefulSetView
counted [] = record { replicas = 3; ready_replicas = 3 }
counted (q ∷ h) = record { replicas = 4; ready_replicas = 4 }

unfoldable same_key : Key → Key → Bool
same_key a b = str_eq a.name b.name && str_eq a.namespace b.namespace

-- The request deletes the job.
unfoldable removes : Key → Request → Bool
removes k (delete_job j) = same_key k j
removes k (update_cluster c) = false
removes k (update_status c) = false
removes k (get_cluster j) = false
removes k (get_job j) = false
removes k (get_stateful_set j) = false
removes k (get_pod j) = false
removes k (get_service j) = false
removes k (list_pods ns ls) = false
removes k (create_job j) = false
removes k (get_resource x) = false
removes k (create_resource x) = false
removes k (update_resource x) = false
removes k (query text) = false

unfoldable answer_job : Key → List Request → Response JobStatus
answer_job k [] = ok succeeded
answer_job k (q ∷ h) = if removes k q then err not_found else answer_job k h

-- Every job has succeeded, until it is deleted.
abbrev refusing : Platform ℕ
refusing = record working {
  read_job = λ h k. answer_job k h;
  read_stateful_set = λ h k. ok (counted h);
  write_status = λ h c. err (failure 409);
}

both : (a b : Bool) → (a && b) ≡ true → (a ≡ true) × (b ≡ true)
both a b h = ground arith

same_key_same : (k j : Key) → same_key k j ≡ true → k ≡ j
unfolding same_key
same_key_same k j h =
    let (a, b) = both (str_eq k.name j.name) (str_eq k.namespace j.namespace) h in
    λ i. record {
      name = str_same k.name j.name a i;
      namespace = str_same k.namespace j.namespace b i;
    }

Keeps-removes : (k : Key) (q : Request) → Keeps k q → removes k q ≡ false
unfolding removes Keeps
Keeps-removes k (delete_job j) r = elim (Bool-cases (same_key k j)) [
  | inl same ↦ absurd (r (same_key_same k j same))
  | inr other ↦ other
]
Keeps-removes k (update_cluster c) r = refl
Keeps-removes k (update_status c) r = refl
Keeps-removes k (get_cluster j) r = refl
Keeps-removes k (get_job j) r = refl
Keeps-removes k (get_stateful_set j) r = refl
Keeps-removes k (get_pod j) r = refl
Keeps-removes k (get_service j) r = refl
Keeps-removes k (list_pods ns ls) r = refl
Keeps-removes k (create_job j) r = refl
Keeps-removes k (get_resource x) r = refl
Keeps-removes k (create_resource x) r = refl
Keeps-removes k (update_resource x) r = refl
Keeps-removes k (query text) r = refl

answer_stays :
    (k : Key) {h h' : List Request} → Sends (Keeps k) h h' → answer_job k h' ≡ answer_job k h
unfolding answer_job
answer_stays k nothing = refl
answer_stays k (also {q} r sent) = rw (Keeps-removes k q r) (answer_stays k sent)

refuses : Refuses refusing (failure 409)
refuses = record { spec = λ h c. refl; status = λ h c. refl }

refusing-JobsStay : JobsStay refusing
refusing-JobsStay = record { stays = λ sent answer done. answer_stays _ sent ∙ answer }

growing-Synced : Synced refusing growing.cluster growing
unfolding held
growing-Synced = refl

shrinking-Synced : Synced refusing shrinking.cluster shrinking
unfolding held
shrinking-Synced = refl

-- The calls of the first rounds.
abbrev resharded : List Request
resharded = (check_resharding_status refusing growing).1.calls

abbrev emptied : List Request
emptied = (check_drain_status refusing shrinking).1.calls

first_works : ReshardWorks refusing growing.cluster []
unfolding answer_job removes same_key total_replicas
first_works = record { pods = refl; job = succeeded; answer = refl; succeeded = refl }

new_pods :
    refusing.read_stateful_set resharded (key_of growing.cluster)
    ≡ ok (record { replicas = 4; ready_replicas = 4 })
unfolding check_resharding_status finish_reshard save_provisioning total_replicas answer_job removes
new_pods = refl

reshard_counted_twice_example :
    let (first, t) = check_resharding_status refusing growing in
    let (again, u) =
      check_resharding_status refusing (reads_at refusing growing.cluster resharded) in
    (first.error ≡ some (api (failure 409)))
    × (held refusing growing.cluster t.calls ≡ grown growing.cluster)
    × (again.error ≡ some (api (failure 409)))
    × (held refusing growing.cluster u.calls ≡ grown (grown growing.cluster))
unfolding total_replicas
reshard_counted_twice_example =
    reshard_counted_twice refusing (failure 409) refuses growing.cluster refusing-JobsStay growing
      resharded growing-Synced first_works nothing nothing new_pods

refusing_drains : DrainWorks refusing shrinking.cluster []
unfolding answer_job removes same_key
refusing_drains = record {
  drain = succeeded;
  drain_answer = refl;
  succeeded = refl;
  cleanup = succeeded;
  cleanup_answer = refl;
  over = refl;
  unharmed = refl;
}

drain_counted_twice_example :
    let (first, t) = check_drain_status refusing shrinking in
    let (again, u) = check_drain_status refusing (reads_at refusing shrinking.cluster emptied) in
    (first.error ≡ some (api (failure 409)))
    × (held refusing shrinking.cluster t.calls ≡ shrunk shrinking.cluster)
    × (again.error ≡ some (api (failure 409)))
    × (held refusing shrinking.cluster u.calls ≡ shrunk (shrunk shrinking.cluster))
unfolding refusing_drains
drain_counted_twice_example =
    drain_counted_twice refusing (failure 409) refuses shrinking.cluster refusing-JobsStay shrinking
      emptied shrinking-Synced refusing_drains refl nothing nothing nothing
