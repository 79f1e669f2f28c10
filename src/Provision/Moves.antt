-- ===== src/Provision/Moves.antt =====
-- What `checkProvisioningStatus` does to the status: one move of the state machine.
use redis_foxtrot_autoscaler.Prelude.{◌*◌, ◌≡◌, refl, ◌&&◌, any, String, List, if_cases}
use redis_foxtrot_autoscaler.Prelude.Int.{pos}
use redis_foxtrot_autoscaler.Prelude.Int32.{lt32}
use redis_foxtrot_autoscaler.Errors.{not_found, failure}
use redis_foxtrot_autoscaler.Cluster.{RedisClusterStatus}
use redis_foxtrot_autoscaler.Cluster.Index.{standby_pod_name}
use redis_foxtrot_autoscaler.Jobs.{join_name, join_nodes_job}
use redis_foxtrot_autoscaler.Standby.{is_running}
use redis_foxtrot_autoscaler.Kube.{
  State, Action, Outcome, Key, JobStatus, Pod, Request, Response, ok, err, Platform, UpdateLaws,
  pure, ◌>>◌, after, again, second, drop_job, modify_status, key_in, fetch_job, fetch_pod, also,
}
use redis_foxtrot_autoscaler.Provision.{
  finish_provisioning, stop_provisioning, is_ready_condition, start_join, finish_join, fail_join,
  follow_join, await_standby, check_provisioning_status,
}
use redis_foxtrot_autoscaler.Autoscaler.Machine.{
  provisioned, lose_provisioning, phase, provisioning,
}
use redis_foxtrot_autoscaler.Autoscaler.Round.{
  Before, Round, start_round, rest, moved, job-Before, drop-Before, drop-Round, save-Round,
}

module _ {F : Type 0} (p : Platform F) (laws : UpdateLaws p) {st : RedisClusterStatus}
    {h : List Request} (phase_is : phase st ≡ provisioning) where
  finish_join-Round :
      (name : String) (k : Key) (s : State) → Before st h s → Round st h (finish_join p name k s).1
  unfolding finish_join
  finish_join-Round name k s b =
      save-Round p laws (do drop_job p k; pure again) (modify_status (finish_provisioning name) s).1
        (moved (finish_provisioning name) s b (provisioned name phase_is refl))
        (λ u r. drop-Round p k u r)

  fail_join-Round : (k : Key) (s : State) → Before st h s → Round st h (fail_join p k s).1
  unfolding fail_join
  fail_join-Round k s b =
      let t = (drop_job p k s).1 in
      save-Round p laws (pure (after (pos (10 * second)))) (modify_status stop_provisioning t).1
        (moved stop_provisioning t (drop-Before p k s b) (lose_provisioning phase_is refl))
        (λ u r. r)

  follow_join-Round :
      (name : String) (k : Key) (r : Response JobStatus) (s : State)
      → Before st h s
      → Round st h (follow_join p name k r s).1
  unfolding start_join
  follow_join-Round name k (err not_found) s b = rest (job-Before p (join_nodes_job s.cluster) s b)
  follow_join-Round name k (err (failure n)) s b = rest b
  follow_join-Round name k (ok j) s b =
      if_cases {A = Action Outcome} (λ m. Round st h (m s).1) (lt32 0 j.succeeded) _ _
        (λ _. finish_join-Round name k s b)
        (λ _.
          if_cases {A = Action Outcome} (λ m. Round st h (m s).1) (lt32 0 j.failed) _ _
            (λ _. fail_join-Round k s b) (λ _. rest b))

  await_standby-Round :
      (name : String) (r : Response Pod) (s : State)
      → Before st h s
      → Round st h (await_standby p name r s).1
  await_standby-Round name (err not_found) s b = rest b
  await_standby-Round name (err (failure n)) s b = rest b
  await_standby-Round name (ok pod) s b =
      let k = key_in s.cluster (join_name s.cluster) in
      if_cases {A = Action Outcome} (λ m. Round st h (m s).1)
        (is_running pod.phase && any is_ready_condition pod.conditions) _ _
        (λ _.
          follow_join-Round name k (p.read_job s.calls k) (fetch_job p k s).1
            (record { same = b.same; sent = also tt b.sent }))
        (λ _. rest b)

pub check_provisioning_status-Round :
    {F : Type 0} (p : Platform F)
    → UpdateLaws p
    → (s : State) → phase s.cluster.status ≡ provisioning
    → Round s.cluster.status s.calls (check_provisioning_status p s).1
unfolding check_provisioning_status
check_provisioning_status-Round p laws s h =
    let name = standby_pod_name s.cluster in
    let k = key_in s.cluster name in
    await_standby-Round p laws h name (p.read_pod s.calls k) (fetch_pod p k s).1
      (record { same = refl; sent = also tt (start_round s).sent })
