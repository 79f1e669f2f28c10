-- ===== src/Reshard/Retries.antt =====
-- A reshard whose status cannot be saved: the job stays, and the next round counts the same reshard
-- again.
use redis_foxtrot_autoscaler.Prelude.{not_same, ◌≡◌, ◌∙◌, refl, sym, ap, some, List, ◌∷◌}
use mathlib.Core.Path.{subst}
use redis_foxtrot_autoscaler.Prelude.Int32.{add32}
use redis_foxtrot_autoscaler.Errors.{ApiError, api}
use redis_foxtrot_autoscaler.Cluster.{RedisCluster, RedisClusterSpec}
use redis_foxtrot_autoscaler.Cluster.Index.{total_replicas}
use redis_foxtrot_autoscaler.Jobs.{reshard_name}
use redis_foxtrot_autoscaler.Resources.{stateful_set_for}
use redis_foxtrot_autoscaler.Infrastructure.{reconcile_owned}
use redis_foxtrot_autoscaler.Infrastructure.Effects.{reconcile_owned-cluster}
use redis_foxtrot_autoscaler.Infrastructure.Writes.{reconcile_owned-Sends, reconcile_owned-Synced}
use redis_foxtrot_autoscaler.Kube.{
  State, Key, Request, Platform, Outcome, ok, key_in, modify_status, modify_spec, stateful_set,
  fetch_job, fetch_stateful_set, get_stateful_set, update_cluster, Sends, nothing, also, then-Sends,
  Keeps, JobsStay, Refuses, status_stops, refused_held, spec_goes, taken_held, held, wrote, Silent,
  Sends-held, Synced, reads_at,
}
use redis_foxtrot_autoscaler.Reshard.{
  start_provisioning, save_provisioning, finish_reshard, check_resharding_status,
}
use redis_foxtrot_autoscaler.Reshard.Writes.{grown}
use redis_foxtrot_autoscaler.Reshard.Grows.{ReshardWorks}

abbrev one_more : RedisClusterSpec → RedisClusterSpec
one_more m = record m { masters = add32 m.masters 1 }

module _ {F : Type 0} (p : Platform F) (e : ApiError) (refuses : Refuses p e)
    (o : RedisCluster) where
  -- What a round leaves behind that begins after the calls `h` and finds the reshard of `c` done: the
  -- error, the job `k`, and a master more in what the server holds.
  record Counted (c : RedisCluster) (k : Key) (h : List Request) (r : Outcome × State)
      : Type 0 where
    error : r.0.error ≡ some (api e)
    kept : Sends (Keeps k) h r.1.calls
    counted : held p o r.1.calls ≡ grown c

  saving-Counted :
      (k : Key) (c : RedisCluster) (s : State)
      → Synced p o s
      → s.cluster ≡ grown c
      → Counted c k s.calls (save_provisioning p k s)
  unfolding save_provisioning Keeps
  saving-Counted k c s synced same =
      let set = stateful_set (stateful_set_for s.cluster) in
      let t = (reconcile_owned p set s).1 in
      let t' = (modify_status (start_provisioning (p.now t.calls)) t).1 in
      subst (λ r. Counted c k s.calls r) (sym (status_stops p e refuses _ t'))
        (record {
          error = refl;
          kept = also tt (reconcile_owned-Sends p (Keeps k) set tt tt tt s);
          counted =
              refused_held p e refuses o t'
              ∙ reconcile_owned-Synced p o set s synced
              ∙ reconcile_owned-cluster p set s
              ∙ same;
        })

  finish-Counted :
      (k : Key) (s : State) → Synced p o s → Counted s.cluster k s.calls (finish_reshard p k s)
  unfolding finish_reshard Keeps
  finish-Counted k s synced =
      let s' = (modify_spec one_more s).1 in
      let t : State = record s' { calls = update_cluster s'.cluster ∷ s'.calls } in
      let m = saving-Counted k s.cluster t (taken_held p e refuses o one_more s synced) refl in
      subst (λ r. Counted s.cluster k s.calls r) (sym (spec_goes p e refuses _ s'))
        (record {
          error = m.error;
          kept = then-Sends (also tt nothing) m.kept;
          counted = m.counted;
        })

  round-Counted :
      (s : State)
      → Synced p o s
      → ReshardWorks p s.cluster s.calls
      → let c = s.cluster in
        Counted c
          (key_in c (reshard_name c))
          (get_stateful_set (key_in c c.name) ∷ s.calls)
          (check_resharding_status p s)
  unfolding check_resharding_status Keeps held wrote
  round-Counted s synced w =
      let c = s.cluster in
      let t = (fetch_stateful_set p (key_in c c.name) s).1 in
      let k = key_in c (reshard_name c) in
      let m = finish-Counted k (fetch_job p k t).1 synced in
      rw (w.pods, not_same (total_replicas c.spec), w.answer, w.succeeded)
        (record {
          error = m.error;
          kept = then-Sends (also tt nothing) m.kept;
          counted = m.counted;
        })

  -- The job of the first round is there for the second.
  works_again :
      (stay : JobsStay p) (s : State) (h : List Request)
      → Synced p o s
      → (w : ReshardWorks p s.cluster s.calls)
      → let c = s.cluster in
        Sends (Keeps (key_in c (reshard_name c))) (check_resharding_status p s).1.calls h
        → p.read_stateful_set h (key_in c c.name)
          ≡ ok (record {
            replicas = total_replicas (grown c).spec;
            ready_replicas = total_replicas (grown c).spec;
          })
        → ReshardWorks p (grown c) h
  unfolding Keeps
  works_again stay s h synced w between pods = record {
    pods = pods;
    job = w.job;
    answer =
        stay.stays (also tt (then-Sends (round-Counted s synced w).kept between)) w.answer
          w.succeeded;
    succeeded = w.succeeded;
  }

  -- Where the server takes the specs and refuses the statuses, and a job that has succeeded stays
  -- until it is deleted, a round that finds the reshard done adds a master to the spec that the
  -- server holds and ends with the error; and the next round, on the object that the server then
  -- holds, once the pods for it are there, adds a master again for the same reshard and ends with
  -- the error. Before the first round the server holds the object that the round works on; between
  -- the rounds nothing writes the object or deletes the reshard job.
  pub reshard_counted_twice :
      (stay : JobsStay p) (s : State) (h : List Request)
      → Synced p o s
      → ReshardWorks p s.cluster s.calls
      → let c = s.cluster in
        let (first, t) = check_resharding_status p s in
        Sends (Silent p) t.calls h
        → Sends (Keeps (key_in c (reshard_name c))) t.calls h
        → p.read_stateful_set h (key_in c c.name)
          ≡ ok (record {
            replicas = total_replicas (grown c).spec;
            ready_replicas = total_replicas (grown c).spec;
          })
        → let (again, u) = check_resharding_status p (reads_at p o h) in
          (first.error ≡ some (api e))
          × (held p o t.calls ≡ grown c)
          × (again.error ≡ some (api e))
          × (held p o u.calls ≡ grown (grown c))
  reshard_counted_twice stay s h synced w silent keeps pods =
      let m = round-Counted s synced w in
      let same = Sends-held p o silent ∙ m.counted in
      let m' =
        round-Counted (reads_at p o h) refl
          (subst (λ c. ReshardWorks p c h) (sym same) (works_again stay s h synced w keeps pods)) in
      (m.error, m.counted, m'.error, m'.counted ∙ ap grown same)
