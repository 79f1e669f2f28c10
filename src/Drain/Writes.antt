-- ===== src/Drain/Writes.antt =====
-- What `checkDrainStatus` may send.
use redis_foxtrot_autoscaler.Prelude.{
  ◌≡◌, refl, ◌⊎◌, inl, inr, Bool-cases, true, false, ◌||◌, some, String, List, ◌∷◌,
}
use redis_foxtrot_autoscaler.Prelude.Int.{pos}
use redis_foxtrot_autoscaler.Prelude.Int32.{lt32, sub32}
use redis_foxtrot_autoscaler.Prelude.Text.{str_eq}
use redis_foxtrot_autoscaler.Errors.{not_found, failure}
use redis_foxtrot_autoscaler.Cluster.{RedisCluster}
use redis_foxtrot_autoscaler.Jobs.{drain_name, cleanup_name, drain_job, cleanup_standby_job}
use redis_foxtrot_autoscaler.Resources.{stateful_set_for}
use redis_foxtrot_autoscaler.Health.{is_active}
use redis_foxtrot_autoscaler.Infrastructure.{reconcile_owned}
use redis_foxtrot_autoscaler.Infrastructure.Writes.{reconcile_owned-Sends, create_owned_job-Sends}
use redis_foxtrot_autoscaler.Kube.{
  State, Key, Job, JobStatus, Request, Response, ok, err, Platform, put_status, put_cluster,
  or_else_cases, modify_status, modify_spec, fail_api, key_in, key_of, fetch_job, drop_job, get_job,
  stateful_set, update_cluster, create_job, delete_job, create_resource, update_resource, Sends,
  nothing, also, then-Sends, ◌>>◌, pure, done, after, second,
}
use redis_foxtrot_autoscaler.Drain.{
  clear_drain, drained, abandon_drain, start_drain, start_cleanup, save_drained, finish_drain,
  retry_cleanup, fail_drain, follow_cleanup, follow_drain, check_drain_status,
}

-- The cluster with one master less.
abbrev pub shrunk : RedisCluster → RedisCluster
shrunk c = record c { spec = record (c.spec) { masters = sub32 c.spec.masters 1 } }

module _ {F : Type 0} (p : Platform F) where
  -- The answer for the drain job, the first one of the round, says that it has succeeded. The calls
  -- before the round are `h`.
  abbrev pub DrainDone : RedisCluster → List Request → Type 0
  DrainDone c h =
      (j : JobStatus) × (p.read_job h (key_in c (drain_name c)) ≡ ok j)
      × (lt32 0 j.succeeded ≡ true)

  -- The answer for the cleanup job, the next one, says that it has ended without a failure.
  abbrev pub CleanupDone : RedisCluster → List Request → Type 0
  CleanupDone c h =
      (j : JobStatus) × (p.read_job (get_job (key_in c (drain_name c)) ∷ h)
          (key_in c (cleanup_name c))
        ≡ ok j)
      × (is_active j ≡ false)
      × (lt32 0 j.failed ≡ false)

  -- The drain job empties a known pod that is not the standby into a known destination.
  abbrev pub IsDrainJob : RedisCluster → Job → Type 0
  IsDrainJob c j =
      ((str_eq c.status.pod_to_drain "" || str_eq c.status.drain_dest_pod1 "") ≡ false)
      × (str_eq c.status.pod_to_drain c.status.standby_pod ≡ false)
      × (j
          ≡ record (drain_job c c.status.pod_to_drain c.status.drain_dest_pod1
              c.status.drain_dest_pod2) { owner = some (key_of c) })

  -- The cleanup job forgets the old standby, after the drain.
  abbrev pub IsCleanupJob : RedisCluster → List Request → Job → Type 0
  IsCleanupJob c h j =
      DrainDone c h
      × (j ≡ record (cleanup_standby_job c c.status.standby_pod c.status.pod_to_drain) {
        owner = some (key_of c);
      })

  -- The requests of a round of draining, for the cluster that the round begins with.
  abbrev pub MayDrain : RedisCluster → List Request → Request → Type 0
  MayDrain c h (update_cluster c') = (c' ≡ shrunk c) × DrainDone c h × CleanupDone c h
  MayDrain c h (create_resource x) = DrainDone c h × CleanupDone c h
  MayDrain c h (update_resource x) = DrainDone c h × CleanupDone c h
  MayDrain c h (create_job j) = IsDrainJob c j ⊎ IsCleanupJob c h j
  MayDrain c h (delete_job k) = (k ≡ key_in c (drain_name c)) ⊎ (k ≡ key_in c (cleanup_name c))
  MayDrain c h _ = Unit

  abbrev Drains : RedisCluster → List Request → State → State → Type 0
  Drains c h s s' = Sends (MayDrain c h) s.calls s'.calls

  abbrev drain_key : RedisCluster → Key
  drain_key c = key_in c (drain_name c)

  abbrev cleanup_key : RedisCluster → Key
  cleanup_key c = key_in c (cleanup_name c)

  save_drained-Drains :
      (c : RedisCluster) (h : List Request) (pod : String) (s : State)
      → DrainDone c h × CleanupDone c h
      → Drains c h s (save_drained p pod (drain_key c) (cleanup_key c) s).1
  unfolding save_drained
  save_drained-Drains c h pod s success =
      let set = stateful_set (stateful_set_for s.cluster) in
      let t = (reconcile_owned p set s).1 in
      let wrote = reconcile_owned-Sends p (MayDrain c h) set tt success success s in
      or_else_cases (Drains c h s) (put_status p) fail_api
        (do drop_job p (drain_key c); drop_job p (cleanup_key c); pure done)
        (modify_status (drained pod (p.now t.calls)) t).1 (also tt wrote)
        (also (inr refl) (also (inl refl) (also tt wrote)))

  finish_drain-Drains :
      (h : List Request) (s : State) (pod : String)
      → DrainDone s.cluster h × CleanupDone s.cluster h
      → Drains s.cluster h s (finish_drain p pod (drain_key s.cluster) (cleanup_key s.cluster) s).1
  unfolding finish_drain
  finish_drain-Drains h s pod (drain, cleanup) =
      let s' = (modify_spec (λ m. record m { masters = sub32 m.masters 1 }) s).1 in
      let sent : Drains s.cluster h s (put_cluster p s').1 = also (refl, drain, cleanup) nothing in
      or_else_cases (Drains s.cluster h s) (put_cluster p) fail_api
        (save_drained p pod (drain_key s.cluster) (cleanup_key s.cluster)) s' sent
        (then-Sends sent
          (save_drained-Drains s.cluster h pod (put_cluster p s').1 (drain, cleanup)))

  fail_drain-Drains :
      (h : List Request) (s : State) → Drains s.cluster h s (fail_drain p (drain_key s.cluster) s).1
  unfolding fail_drain
  fail_drain-Drains h s =
      or_else_cases (Drains s.cluster h s) (put_status p) fail_api (pure (after (pos second)))
        ((drop_job p (drain_key s.cluster) >> modify_status clear_drain) s).1
        (also tt (also (inl refl) nothing)) (also tt (also (inl refl) nothing))

  start_drain-Drains : (h : List Request) (s : State) → Drains s.cluster h s (start_drain p s).1
  unfolding start_drain abandon_drain
  start_drain-Drains h s =
      let st = s.cluster.status in
      elim (Bool-cases (str_eq st.pod_to_drain "" || str_eq st.drain_dest_pod1 "")) [
        | inl missing ↦ rw missing (also tt nothing)
        | inr known ↦ elim (Bool-cases (str_eq st.pod_to_drain st.standby_pod)) [
          | inl same ↦ rw (known, same) (also tt nothing)
          | inr other ↦
              rw (known, other)
                (create_owned_job-Sends p (MayDrain s.cluster h)
                  (drain_job s.cluster st.pod_to_drain st.drain_dest_pod1 st.drain_dest_pod2) s
                  (inl (known, other, refl)))
        ]
      ]

  follow_cleanup-Drains :
      (h : List Request) (s : State)
      → DrainDone s.cluster h
      → (r : Response JobStatus)
      → p.read_job (get_job (drain_key s.cluster) ∷ h) (cleanup_key s.cluster) ≡ r
      → Drains s.cluster h s
          (follow_cleanup p s.cluster.status.pod_to_drain
            (drain_key s.cluster)
            (cleanup_key s.cluster)
            r
            s).1
  unfolding start_cleanup retry_cleanup
  follow_cleanup-Drains h s drain (err not_found) e =
      let st = s.cluster.status in
      create_owned_job-Sends p (MayDrain s.cluster h)
        (cleanup_standby_job s.cluster st.standby_pod st.pod_to_drain) s (inr (drain, refl))
  follow_cleanup-Drains h s drain (err (failure n)) e = nothing
  follow_cleanup-Drains h s drain (ok j) e = elim (Bool-cases (is_active j)) [
    | inl busy ↦ rw busy nothing
    | inr over ↦ elim (Bool-cases (lt32 0 j.failed)) [
      | inl bad ↦ rw (over, bad) (also (inr refl) nothing)
      | inr good ↦
          rw (over, good)
            (finish_drain-Drains h s s.cluster.status.pod_to_drain (drain, (j, e, over, good)))
    ]
  ]

  follow_drain-Drains :
      (s : State) (r : Response JobStatus)
      → p.read_job s.calls (drain_key s.cluster) ≡ r
      → let t = (fetch_job p (drain_key s.cluster) s).1 in
        Drains s.cluster s.calls t (follow_drain p (drain_key s.cluster) r t).1
  follow_drain-Drains s (err not_found) e =
      start_drain-Drains s.calls (fetch_job p (drain_key s.cluster) s).1
  follow_drain-Drains s (err (failure n)) e = nothing
  follow_drain-Drains s (ok j) e =
      let t = (fetch_job p (drain_key s.cluster) s).1 in
      elim (Bool-cases (lt32 0 j.succeeded)) [
        | inl good ↦
            let k = cleanup_key s.cluster in
            rw good (
              then-Sends (also tt nothing) (
                follow_cleanup-Drains s.calls (fetch_job p k t).1 (j, e, good)
                  (p.read_job t.calls k) refl))
        | inr on ↦ elim (Bool-cases (lt32 0 j.failed)) [
          | inl bad ↦ rw (on, bad) (fail_drain-Drains s.calls t)
          | inr busy ↦ rw (on, busy) nothing
        ]
      ]

  -- A round of draining shrinks the spec by one master, and writes objects, only after the round's
  -- answers that the drain job has succeeded and the cleanup job has ended without a failure; it
  -- creates the drain job only for a known pod that is not the standby with a known destination,
  -- and the cleanup job only after the drain; it deletes no other job.
  pub check_drain_status-Drains :
      (s : State) → Drains s.cluster s.calls s (check_drain_status p s).1
  unfolding check_drain_status
  check_drain_status-Drains s =
      let k = drain_key s.cluster in
      then-Sends (also tt nothing) (follow_drain-Drains s (p.read_job s.calls k) refl)
