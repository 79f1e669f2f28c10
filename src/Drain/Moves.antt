-- ===== src/Drain/Moves.antt =====
-- What `checkDrainStatus` does to the status: one move of the state machine.
use mathlib.Core.Path.{subst}
use redis_foxtrot_autoscaler.Prelude.{◌≡◌, refl, sym, ap, ◌||◌, List, if_cases}
use redis_foxtrot_autoscaler.Prelude.Int.{pos}
use redis_foxtrot_autoscaler.Prelude.Int32.{lt32, sub32}
use redis_foxtrot_autoscaler.Prelude.Text.{str_eq}
use redis_foxtrot_autoscaler.Errors.{not_found, failure}
use redis_foxtrot_autoscaler.Cluster.{RedisClusterStatus}
use redis_foxtrot_autoscaler.Jobs.{drain_name, drain_job, cleanup_name, cleanup_standby_job}
use redis_foxtrot_autoscaler.Resources.{stateful_set_for}
use redis_foxtrot_autoscaler.Infrastructure.{reconcile_owned}
use redis_foxtrot_autoscaler.Kube.{
  State, Action, Outcome, Key, JobStatus, Request, Response, ok, err, Platform, UpdateLaws, pure,
  ◌>>◌, done, after, second, drop_job, modify_status, key_in, fetch_job, stateful_set, also,
}
use redis_foxtrot_autoscaler.Health.{is_active}
use redis_foxtrot_autoscaler.Drain.{
  clear_drain, drained, abandon_drain, start_drain, start_cleanup, save_drained, finish_drain,
  retry_cleanup, fail_drain, follow_cleanup, clean_up, follow_drain, check_drain_status,
}
use redis_foxtrot_autoscaler.Autoscaler.Machine.{drain_over, lose_drain, phase, draining}
use redis_foxtrot_autoscaler.Autoscaler.Round.{
  Before, Round, start_round, rest, moved, owned-Before, job-Before, drop-Before, drop-Round,
  saved-Round, save-Round, spec-Round,
}

module _ {F : Type 0} (p : Platform F) (laws : UpdateLaws p) {st : RedisClusterStatus}
    {h : List Request} (phase_is : phase st ≡ draining) where
  abandon_drain-Round : (s : State) → Before st h s → Round st h (abandon_drain p s).1
  unfolding abandon_drain
  abandon_drain-Round s b =
      saved-Round p laws (modify_status clear_drain s).1
        (moved clear_drain s b (lose_drain phase_is refl))

  fail_drain-Round : (k : Key) (s : State) → Before st h s → Round st h (fail_drain p k s).1
  unfolding fail_drain
  fail_drain-Round k s b =
      let t = (drop_job p k s).1 in
      save-Round p laws (pure (after (pos second))) (modify_status clear_drain t).1
        (moved clear_drain t (drop-Before p k s b) (lose_drain phase_is refl)) (λ u r. r)

  save_drained-Round :
      (d k : Key) (s : State) → Before st h s → Round st h (save_drained p st.pod_to_drain d k s).1
  unfolding save_drained
  save_drained-Round d k s b =
      let set = stateful_set (stateful_set_for s.cluster) in
      let t = (reconcile_owned p set s).1 in
      let change = drained st.pod_to_drain (p.now t.calls) in
      save-Round p laws (do drop_job p d; drop_job p k; pure done) (modify_status change t).1
        (moved change t (owned-Before p set s b) (drain_over (p.now t.calls) phase_is refl))
        (λ u r. drop-Round p k (drop_job p d u).1 (drop-Round p d u r))

  finish_drain-Round :
      (d k : Key) (s : State) → Before st h s → Round st h (finish_drain p st.pod_to_drain d k s).1
  unfolding finish_drain
  finish_drain-Round d k s b =
      spec-Round p laws (λ m. record m { masters = sub32 m.masters 1 })
        (save_drained p st.pod_to_drain d k) s b (save_drained-Round d k)

  follow_cleanup-Round :
      (d k : Key) (r : Response JobStatus) (s : State)
      → Before st h s
      → Round st h (follow_cleanup p st.pod_to_drain d k r s).1
  unfolding start_cleanup retry_cleanup
  follow_cleanup-Round d k (err not_found) s b = rest (
      job-Before p
        (cleanup_standby_job s.cluster s.cluster.status.standby_pod s.cluster.status.pod_to_drain) s
        b)
  follow_cleanup-Round d k (err (failure n)) s b = rest b
  follow_cleanup-Round d k (ok j) s b =
      if_cases {A = Action Outcome} (λ m. Round st h (m s).1) (is_active j) _ _ (λ _. rest b)
        (λ _.
          if_cases {A = Action Outcome} (λ m. Round st h (m s).1) (lt32 0 j.failed) _ _
            (λ _. rest (drop-Before p k s b)) (λ _. finish_drain-Round d k s b))

  start_drain-Round : (s : State) → Before st h s → Round st h (start_drain p s).1
  unfolding start_drain
  start_drain-Round s b =
      let now = s.cluster.status in
      if_cases {A = Action Outcome} (λ m. Round st h (m s).1)
        (str_eq now.pod_to_drain "" || str_eq now.drain_dest_pod1 "") _ _
        (λ _. abandon_drain-Round s b)
        (λ _.
          if_cases {A = Action Outcome} (λ m. Round st h (m s).1)
            (str_eq now.pod_to_drain now.standby_pod) _ _ (λ _. abandon_drain-Round s b)
            (λ _. rest (
              job-Before p
                (drain_job s.cluster now.pod_to_drain now.drain_dest_pod1 now.drain_dest_pod2) s
                b)))

  clean_up-Round : (d : Key) (s : State) → Before st h s → Round st h (clean_up p d s).1
  clean_up-Round d s b =
      let k = key_in s.cluster (cleanup_name s.cluster) in
      let t = (fetch_job p k s).1 in
      let r = p.read_job s.calls k in
      subst (λ pod. Round st h (follow_cleanup p pod d k r t).1)
        (ap (λ (x : RedisClusterStatus). x.pod_to_drain) (sym b.same))
        (follow_cleanup-Round d k r t (record { same = b.same; sent = also tt b.sent }))

  follow_drain-Round :
      (d : Key) (r : Response JobStatus) (s : State)
      → Before st h s
      → Round st h (follow_drain p d r s).1
  follow_drain-Round d (err not_found) s b = start_drain-Round s b
  follow_drain-Round d (err (failure n)) s b = rest b
  follow_drain-Round d (ok j) s b =
      if_cases {A = Action Outcome} (λ m. Round st h (m s).1) (lt32 0 j.succeeded) _ _
        (λ _. clean_up-Round d s b)
        (λ _.
          if_cases {A = Action Outcome} (λ m. Round st h (m s).1) (lt32 0 j.failed) _ _
            (λ _. fail_drain-Round d s b) (λ _. rest b))

pub check_drain_status-Round :
    {F : Type 0} (p : Platform F)
    → UpdateLaws p
    → (s : State) → phase s.cluster.status ≡ draining
    → Round s.cluster.status s.calls (check_drain_status p s).1
unfolding check_drain_status
check_drain_status-Round p laws s h =
    let k = key_in s.cluster (drain_name s.cluster) in
    follow_drain-Round p laws h k (p.read_job s.calls k) (fetch_job p k s).1
      (record { same = refl; sent = also tt (start_round s).sent })
