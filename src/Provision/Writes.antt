-- ===== src/Provision/Writes.antt =====
-- What `checkProvisioningStatus` may send.
use Prim.Native.Nat.{◌*◌}
use redis_foxtrot_autoscaler.Prelude.{
  ◌≡◌, refl, inl, inr, Bool-cases, true, ◌&&◌, any, some, String, List,
}
use redis_foxtrot_autoscaler.Prelude.Int.{pos}
use redis_foxtrot_autoscaler.Prelude.Int32.{lt32}
use redis_foxtrot_autoscaler.Errors.{not_found, failure}
use redis_foxtrot_autoscaler.Cluster.{RedisCluster}
use redis_foxtrot_autoscaler.Cluster.Index.{standby_pod_name}
use redis_foxtrot_autoscaler.Jobs.{join_name, join_nodes_job}
use redis_foxtrot_autoscaler.Standby.{is_running}
use redis_foxtrot_autoscaler.Infrastructure.Writes.{create_owned_job-Sends}
use redis_foxtrot_autoscaler.Kube.{
  State, Key, Pod, JobStatus, Request, Response, ok, err, Platform, put_status, or_else_cases,
  modify_status, fail_api, key_in, key_of, fetch_job, fetch_pod, drop_job, update_cluster,
  create_job, delete_job, create_resource, update_resource, Sends, nothing, also, then-Sends, ◌>>◌,
  pure, again, after, second,
}
use redis_foxtrot_autoscaler.Provision.{
  finish_provisioning, stop_provisioning, is_ready_condition, start_join, finish_join, fail_join,
  follow_join, await_standby, check_provisioning_status,
}

module _ {F : Type 0} (p : Platform F) where
  -- The answer for the standby's pod, the first one of the round, says that it runs and is ready. The
  -- calls before the round are `h`.
  abbrev pub StandbyReady : RedisCluster → List Request → Type 0
  StandbyReady c h =
      (pod : Pod) × (p.read_pod h (key_in c (standby_pod_name c)) ≡ ok pod)
      × ((is_running pod.phase && any is_ready_condition pod.conditions) ≡ true)

  -- The requests of a round of provisioning, for the cluster that the round begins with.
  abbrev pub MayProvision : RedisCluster → List Request → Request → Type 0
  MayProvision c h (update_cluster c') = ⊥
  MayProvision c h (create_resource x) = ⊥
  MayProvision c h (update_resource x) = ⊥
  MayProvision c h (create_job j) =
      StandbyReady c h × (j ≡ record (join_nodes_job c) { owner = some (key_of c) })
  MayProvision c h (delete_job k) = k ≡ key_in c (join_name c)
  MayProvision c h _ = Unit

  abbrev Provisions : RedisCluster → List Request → State → State → Type 0
  Provisions c h s s' = Sends (MayProvision c h) s.calls s'.calls

  abbrev join_key : RedisCluster → Key
  join_key c = key_in c (join_name c)

  finish_join-Provisions :
      (h : List Request) (name : String) (s : State)
      → Provisions s.cluster h s (finish_join p name (join_key s.cluster) s).1
  unfolding finish_join
  finish_join-Provisions h name s =
      or_else_cases (Provisions s.cluster h s) (put_status p) fail_api
        (do drop_job p (join_key s.cluster); pure again)
        (modify_status (finish_provisioning name) s).1 (also tt nothing)
        (also refl (also tt nothing))

  fail_join-Provisions :
      (h : List Request) (s : State)
      → Provisions s.cluster h s (fail_join p (join_key s.cluster) s).1
  unfolding fail_join
  fail_join-Provisions h s =
      or_else_cases (Provisions s.cluster h s) (put_status p) fail_api
        (pure (after (pos (10 * second))))
        ((drop_job p (join_key s.cluster) >> modify_status stop_provisioning) s).1
        (also tt (also refl nothing)) (also tt (also refl nothing))

  follow_join-Provisions :
      (h : List Request) (name : String) (r : Response JobStatus) (s : State)
      → StandbyReady s.cluster h
      → Provisions s.cluster h s (follow_join p name (join_key s.cluster) r s).1
  unfolding start_join
  follow_join-Provisions h name (err not_found) s ready =
      create_owned_job-Sends p (MayProvision s.cluster h) (join_nodes_job s.cluster) s (ready, refl)
  follow_join-Provisions h name (err (failure n)) s ready = nothing
  follow_join-Provisions h name (ok j) s ready = elim (Bool-cases (lt32 0 j.succeeded)) [
    | inl good ↦ rw good (finish_join-Provisions h name s)
    | inr on ↦ elim (Bool-cases (lt32 0 j.failed)) [
      | inl bad ↦ rw (on, bad) (fail_join-Provisions h s)
      | inr busy ↦ rw (on, busy) nothing
    ]
  ]

  await_standby-Provisions :
      (h : List Request) (s : State) (r : Response Pod)
      → p.read_pod h (key_in s.cluster (standby_pod_name s.cluster)) ≡ r
      → Provisions s.cluster h s (await_standby p (standby_pod_name s.cluster) r s).1
  await_standby-Provisions h s (err not_found) e = nothing
  await_standby-Provisions h s (err (failure n)) e = nothing
  await_standby-Provisions h s (ok pod) e =
      let k = join_key s.cluster in
      elim (Bool-cases (is_running pod.phase && any is_ready_condition pod.conditions)) [
        | inl up ↦ rw up (
            then-Sends (also tt nothing) (
              follow_join-Provisions h (standby_pod_name s.cluster) (p.read_job s.calls k)
                (fetch_job p k s).1 (pod, e, up)))
        | inr down ↦ rw down nothing
      ]

  -- A round of provisioning never writes the spec or an object of the infrastructure, creates only
  -- the join job, after the round's answer that the pod at the standby's index runs and is ready,
  -- and deletes no other job.
  pub check_provisioning_status-Provisions :
      (s : State) → Provisions s.cluster s.calls s (check_provisioning_status p s).1
  unfolding check_provisioning_status
  check_provisioning_status-Provisions s =
      let k = key_in s.cluster (standby_pod_name s.cluster) in
      then-Sends (also tt nothing)
        (await_standby-Provisions s.calls (fetch_pod p k s).1 (p.read_pod s.calls k) refl)
