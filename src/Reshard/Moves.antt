-- ===== src/Reshard/Moves.antt =====
-- What `checkReshardingStatus` does to the status: one move of the state machine.
use redis_foxtrot_autoscaler.Prelude.{◌*◌, ◌≡◌, refl, not, ◌==◌, List, if_cases}
use redis_foxtrot_autoscaler.Prelude.Int.{pos}
use redis_foxtrot_autoscaler.Prelude.Int32.{lt32, add32}
use redis_foxtrot_autoscaler.Prelude.Text.{str_eq}
use redis_foxtrot_autoscaler.Errors.{not_found, failure}
use redis_foxtrot_autoscaler.Cluster.{RedisClusterStatus}
use redis_foxtrot_autoscaler.Cluster.Index.{total_replicas}
use redis_foxtrot_autoscaler.Jobs.{reshard_name, reshard_job}
use redis_foxtrot_autoscaler.Resources.{stateful_set_for}
use redis_foxtrot_autoscaler.Infrastructure.{reconcile_owned}
use redis_foxtrot_autoscaler.Kube.{
  State, Action, Outcome, Key, JobStatus, StatefulSetView, Request, Response, ok, err, Platform,
  UpdateLaws, pure, ◌>>◌, after, second, drop_job, modify_status, stateful_set, key_in, fetch_job,
  fetch_stateful_set, also,
}
use redis_foxtrot_autoscaler.Reshard.{
  stop_resharding, reshard_failed, start_provisioning, abandon_reshard, start_reshard,
  save_provisioning, finish_reshard, fail_reshard, follow_reshard, await_pods,
  check_resharding_status,
}
use redis_foxtrot_autoscaler.Autoscaler.Machine.{
  resharded, give_up_reshard, lose_reshard, phase, resharding,
}
use redis_foxtrot_autoscaler.Autoscaler.Round.{
  Before, Round, start_round, rest, moved, owned-Before, job-Before, drop-Before, drop-Round,
  saved-Round, save-Round, spec-Round,
}

module _ {F : Type 0} (p : Platform F) (laws : UpdateLaws p) {st : RedisClusterStatus}
    {h : List Request} (phase_is : phase st ≡ resharding) where
  abandon_reshard-Round : (s : State) → Before st h s → Round st h (abandon_reshard p s).1
  unfolding abandon_reshard
  abandon_reshard-Round s b =
      saved-Round p laws (modify_status stop_resharding s).1
        (moved stop_resharding s b (give_up_reshard phase_is refl))

  fail_reshard-Round : (k : Key) (s : State) → Before st h s → Round st h (fail_reshard p k s).1
  unfolding fail_reshard
  fail_reshard-Round k s b =
      let t = (drop_job p k s).1 in
      save-Round p laws (pure (after (pos second))) (modify_status reshard_failed t).1
        (moved reshard_failed t (drop-Before p k s b) (lose_reshard phase_is refl)) (λ u r. r)

  save_provisioning-Round :
      (k : Key) (s : State) → Before st h s → Round st h (save_provisioning p k s).1
  unfolding save_provisioning
  save_provisioning-Round k s b =
      let set = stateful_set (stateful_set_for s.cluster) in
      let t = (reconcile_owned p set s).1 in
      let change = start_provisioning (p.now t.calls) in
      save-Round p laws (do drop_job p k; pure (after (pos (5 * second))))
        (modify_status change t).1
        (moved change t (owned-Before p set s b) (resharded (p.now t.calls) phase_is refl))
        (λ u r. drop-Round p k u r)

  finish_reshard-Round : (k : Key) (s : State) → Before st h s → Round st h (finish_reshard p k s).1
  unfolding finish_reshard
  finish_reshard-Round k s b =
      spec-Round p laws (λ m. record m { masters = add32 m.masters 1 }) (save_provisioning p k) s b
        (save_provisioning-Round k)

  start_reshard-Round : (s : State) → Before st h s → Round st h (start_reshard p s).1
  unfolding start_reshard
  start_reshard-Round s b =
      let now = s.cluster.status in
      if_cases {A = Action Outcome} (λ m. Round st h (m s).1) (str_eq now.overloaded_pod "") _ _
        (λ _. abandon_reshard-Round s b)
        (λ _.
          if_cases {A = Action Outcome} (λ m. Round st h (m s).1) (str_eq now.standby_pod "") _ _
            (λ _. abandon_reshard-Round s b)
            (λ _.
              rest (job-Before p (reshard_job s.cluster now.overloaded_pod now.standby_pod) s b)))

  follow_reshard-Round :
      (k : Key) (v : StatefulSetView) (r : Response JobStatus) (s : State)
      → Before st h s
      → Round st h (follow_reshard p k v r s).1
  follow_reshard-Round k v (err not_found) s b =
      if_cases {A = Action Outcome} (λ m. Round st h (m s).1)
        (not (v.ready_replicas == total_replicas s.cluster.spec)) _ _ (λ _. rest b)
        (λ _. start_reshard-Round s b)
  follow_reshard-Round k v (err (failure n)) s b = rest b
  follow_reshard-Round k v (ok j) s b =
      if_cases {A = Action Outcome} (λ m. Round st h (m s).1) (lt32 0 j.succeeded) _ _
        (λ _. finish_reshard-Round k s b)
        (λ _.
          if_cases {A = Action Outcome} (λ m. Round st h (m s).1) (lt32 0 j.failed) _ _
            (λ _. fail_reshard-Round k s b) (λ _. rest b))

  await_pods-Round :
      (r : Response StatefulSetView) (s : State) → Before st h s → Round st h (await_pods p r s).1
  await_pods-Round (err e) s b = rest b
  await_pods-Round (ok v) s b =
      let total = total_replicas s.cluster.spec in
      let k = key_in s.cluster (reshard_name s.cluster) in
      if_cases {A = Action Outcome} (λ m. Round st h (m s).1) (not (v.replicas == total)) _ _
        (λ _. rest b)
        (λ _.
          if_cases {A = Action Outcome} (λ m. Round st h (m s).1) (not (v.ready_replicas == total))
            _ _ (λ _. rest b)
            (λ _.
              follow_reshard-Round k v (p.read_job s.calls k) (fetch_job p k s).1
                (record { same = b.same; sent = also tt b.sent })))

pub check_resharding_status-Round :
    {F : Type 0} (p : Platform F)
    → UpdateLaws p
    → (s : State) → phase s.cluster.status ≡ resharding
    → Round s.cluster.status s.calls (check_resharding_status p s).1
unfolding check_resharding_status
check_resharding_status-Round p laws s h =
    let k = key_in s.cluster s.cluster.name in
    await_pods-Round p laws h (p.read_stateful_set s.calls k) (fetch_stateful_set p k s).1
      (record { same = refl; sent = also tt (start_round s).sent })
