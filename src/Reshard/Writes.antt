-- ===== src/Reshard/Writes.antt =====
-- What `checkReshardingStatus` may send.
use Prim.Native.Nat.{◌*◌}
use redis_foxtrot_autoscaler.Prelude.{
  ◌∷◌, ◌≡◌, refl, inl, inr, Bool-cases, true, false, not, some, ◌==◌, List,
}
use redis_foxtrot_autoscaler.Prelude.Int.{pos}
use redis_foxtrot_autoscaler.Prelude.Int32.{lt32, add32}
use redis_foxtrot_autoscaler.Prelude.Text.{str_eq}
use redis_foxtrot_autoscaler.Errors.{not_found, failure}
use redis_foxtrot_autoscaler.Cluster.{RedisCluster}
use redis_foxtrot_autoscaler.Cluster.Index.{total_replicas}
use redis_foxtrot_autoscaler.Jobs.{reshard_name, reshard_job}
use redis_foxtrot_autoscaler.Resources.{stateful_set_for}
use redis_foxtrot_autoscaler.Infrastructure.{reconcile_owned}
use redis_foxtrot_autoscaler.Infrastructure.Writes.{reconcile_owned-Sends, create_owned_job-Sends}
use redis_foxtrot_autoscaler.Kube.{
  State, JobStatus, StatefulSetView, Request, Response, ok, err, Platform, put_status, put_cluster,
  or_else_cases, modify_status, modify_spec, fail_api, key_in, key_of, fetch_job,
  fetch_stateful_set, get_stateful_set, drop_job, stateful_set, update_cluster, create_job,
  delete_job, create_resource, update_resource, Sends, nothing, also, then-Sends, ◌>>◌, pure, after,
  second,
}
use redis_foxtrot_autoscaler.Reshard.{
  reshard_failed, start_provisioning, abandon_reshard, start_reshard, save_provisioning,
  finish_reshard, fail_reshard, follow_reshard, await_pods, check_resharding_status,
}

-- The cluster with one master more.
abbrev pub grown : RedisCluster → RedisCluster
grown c = record c { spec = record (c.spec) { masters = add32 c.spec.masters 1 } }

module _ {F : Type 0} (p : Platform F) where
  -- The answer for the reshard job, the second one of the round after the stateful set's, says that it
  -- has succeeded. The calls before the round are `h`.
  abbrev pub ReshardDone : RedisCluster → List Request → Type 0
  ReshardDone c h =
      (j : JobStatus) × (p.read_job (get_stateful_set (key_in c c.name) ∷ h)
          (key_in c (reshard_name c))
        ≡ ok j)
      × (lt32 0 j.succeeded ≡ true)

  -- The requests of a round of resharding, for the cluster that the round begins with: one master
  -- more, and a written object, only after the reshard job has succeeded; the reshard job from a known
  -- overloaded pod to a known standby; and no other job is created or deleted.
  abbrev pub MayReshard : RedisCluster → List Request → Request → Type 0
  MayReshard c h (update_cluster c') = (c' ≡ grown c) × ReshardDone c h
  MayReshard c h (create_resource x) = ReshardDone c h
  MayReshard c h (update_resource x) = ReshardDone c h
  MayReshard c h (create_job j) =
      (str_eq c.status.overloaded_pod "" ≡ false)
      × (str_eq c.status.standby_pod "" ≡ false)
      × (j ≡ record (reshard_job c c.status.overloaded_pod c.status.standby_pod) {
        owner = some (key_of c);
      })
  MayReshard c h (delete_job k) = k ≡ key_in c (reshard_name c)
  MayReshard c h _ = Unit

  abbrev Reshards : RedisCluster → List Request → State → State → Type 0
  Reshards c h s s' = Sends (MayReshard c h) s.calls s'.calls

  save_provisioning-Reshards :
      (c : RedisCluster) (h : List Request) (s : State)
      → ReshardDone c h
      → Reshards c h s (save_provisioning p (key_in c (reshard_name c)) s).1
  unfolding save_provisioning
  save_provisioning-Reshards c h s success =
      let k = key_in c (reshard_name c) in
      let set = stateful_set (stateful_set_for s.cluster) in
      let t = (reconcile_owned p set s).1 in
      let wrote = reconcile_owned-Sends p (MayReshard c h) set tt success success s in
      or_else_cases (Reshards c h s) (put_status p) fail_api
        (do drop_job p k; pure (after (pos (5 * second))))
        (modify_status (start_provisioning (p.now t.calls)) t).1 (also tt wrote)
        (also refl (also tt wrote))

  finish_reshard-Reshards :
      (h : List Request) (s : State)
      → ReshardDone s.cluster h
      → Reshards s.cluster h s (finish_reshard p (key_in s.cluster (reshard_name s.cluster)) s).1
  unfolding finish_reshard
  finish_reshard-Reshards h s success =
      let k = key_in s.cluster (reshard_name s.cluster) in
      let s' = (modify_spec (λ m. record m { masters = add32 m.masters 1 }) s).1 in
      let sent : Reshards s.cluster h s (put_cluster p s').1 = also (refl, success) nothing in
      or_else_cases (Reshards s.cluster h s) (put_cluster p) fail_api (save_provisioning p k) s'
        sent (then-Sends sent (save_provisioning-Reshards s.cluster h (put_cluster p s').1 success))

  fail_reshard-Reshards :
      (h : List Request) (s : State)
      → Reshards s.cluster h s (fail_reshard p (key_in s.cluster (reshard_name s.cluster)) s).1
  unfolding fail_reshard
  fail_reshard-Reshards h s =
      let k = key_in s.cluster (reshard_name s.cluster) in
      or_else_cases (Reshards s.cluster h s) (put_status p) fail_api (pure (after (pos second)))
        ((drop_job p k >> modify_status reshard_failed) s).1 (also tt (also refl nothing))
        (also tt (also refl nothing))

  start_reshard-Reshards :
      (h : List Request) (s : State) → Reshards s.cluster h s (start_reshard p s).1
  unfolding start_reshard abandon_reshard
  start_reshard-Reshards h s =
      let st = s.cluster.status in
      elim (Bool-cases (str_eq st.overloaded_pod "")) [
        | inl missing ↦ rw missing (also tt nothing)
        | inr known ↦ elim (Bool-cases (str_eq st.standby_pod "")) [
          | inl missing ↦ rw (known, missing) (also tt nothing)
          | inr present ↦
              rw (known, present)
                (create_owned_job-Sends p (MayReshard s.cluster h)
                  (reshard_job s.cluster st.overloaded_pod st.standby_pod) s (known, present, refl))
        ]
      ]

  follow_reshard-Reshards :
      (v : StatefulSetView) (h : List Request) (s : State)
      → let k = key_in s.cluster (reshard_name s.cluster) in
        (r : Response JobStatus)
        → p.read_job (get_stateful_set (key_in s.cluster s.cluster.name) ∷ h) k ≡ r
        → Reshards s.cluster h s (follow_reshard p k v r s).1
  follow_reshard-Reshards v h s (err not_found) e =
      elim (Bool-cases (not (v.ready_replicas == total_replicas s.cluster.spec))) [
        | inl wait ↦ rw wait nothing
        | inr all ↦ rw all (start_reshard-Reshards h s)
      ]
  follow_reshard-Reshards v h s (err (failure n)) e = nothing
  follow_reshard-Reshards v h s (ok j) e = elim (Bool-cases (lt32 0 j.succeeded)) [
    | inl good ↦ rw good (finish_reshard-Reshards h s (j, e, good))
    | inr on ↦ elim (Bool-cases (lt32 0 j.failed)) [
      | inl bad ↦ rw (on, bad) (fail_reshard-Reshards h s)
      | inr busy ↦ rw (on, busy) nothing
    ]
  ]

  await_pods-Reshards :
      (s : State) (r : Response StatefulSetView)
      → let t = (fetch_stateful_set p (key_in s.cluster s.cluster.name) s).1 in
        Reshards s.cluster s.calls t (await_pods p r t).1
  await_pods-Reshards s (err e) = nothing
  await_pods-Reshards s (ok v) =
      let t = (fetch_stateful_set p (key_in s.cluster s.cluster.name) s).1 in
      let total = total_replicas s.cluster.spec in
      let k = key_in s.cluster (reshard_name s.cluster) in
      elim (Bool-cases (not (v.replicas == total))) [
        | inl wait ↦ rw wait nothing
        | inr spec ↦ elim (Bool-cases (not (v.ready_replicas == total))) [
          | inl wait ↦ rw (spec, wait) nothing
          | inr all ↦
              rw (spec, all)
                (then-Sends (also tt nothing) (
                  follow_reshard-Reshards v s.calls (fetch_job p k t).1 (p.read_job t.calls k)
                    refl))
        ]
      ]

  -- A round of resharding adds one master to the spec, and writes objects, only after the round's
  -- answer that the reshard job has succeeded; the only job that it creates is the reshard job,
  -- owned by the cluster, with both pods known, and the only one it deletes.
  pub check_resharding_status-Reshards :
      (s : State) → Reshards s.cluster s.calls s (check_resharding_status p s).1
  unfolding check_resharding_status
  check_resharding_status-Reshards s =
      let k = key_in s.cluster s.cluster.name in
      then-Sends (also tt nothing) (await_pods-Reshards s (p.read_stateful_set s.calls k))
