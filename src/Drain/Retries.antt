-- ===== src/Drain/Retries.antt =====
-- A drain whose status cannot be saved: both jobs stay, and the next round counts the same drain again.
use mathlib.Core.Path.{subst}
use redis_foxtrot_autoscaler.Prelude.{◌≡◌, ◌∙◌, refl, sym, ap, true, some, List, ◌∷◌, String}
use redis_foxtrot_autoscaler.Prelude.Int32.{sub32, lt32}
use redis_foxtrot_autoscaler.Errors.{ApiError, api}
use redis_foxtrot_autoscaler.Cluster.{RedisCluster, RedisClusterSpec}
use redis_foxtrot_autoscaler.Jobs.{drain_name, cleanup_name}
use redis_foxtrot_autoscaler.Resources.{stateful_set_for}
use redis_foxtrot_autoscaler.Infrastructure.{reconcile_owned}
use redis_foxtrot_autoscaler.Infrastructure.Effects.{reconcile_owned-cluster}
use redis_foxtrot_autoscaler.Infrastructure.Writes.{reconcile_owned-Sends, reconcile_owned-Synced}
use redis_foxtrot_autoscaler.Kube.{
  State, Key, Request, Platform, Outcome, key_in, modify_status, modify_spec, stateful_set,
  fetch_job, get_job, update_cluster, Sends, nothing, also, then-Sends, Keeps, JobsStay, Refuses,
  status_stops, refused_held, spec_goes, taken_held, held, wrote, Silent, Sends-held, Synced,
  reads_at,
}
use redis_foxtrot_autoscaler.Drain.{drained, save_drained, finish_drain, check_drain_status}
use redis_foxtrot_autoscaler.Drain.Writes.{shrunk}
use redis_foxtrot_autoscaler.Drain.Shrinks.{DrainWorks}

abbrev one_less : RedisClusterSpec → RedisClusterSpec
one_less m = record m { masters = sub32 m.masters 1 }

-- The two jobs of a drain.
abbrev drain_key : RedisCluster → Key
drain_key c = key_in c (drain_name c)

abbrev cleanup_key : RedisCluster → Key
cleanup_key c = key_in c (cleanup_name c)

module _ {F : Type 0} (p : Platform F) (e : ApiError) (refuses : Refuses p e)
    (o : RedisCluster) where
  -- What a round leaves behind that begins after the calls `h` and finds the drain of `c` done: the
  -- error, every job, and a master less in what the server holds.
  record Counted (c : RedisCluster) (h : List Request) (r : Outcome × State) : Type 0 where
    error : r.0.error ≡ some (api e)
    kept : (k : Key) → Sends (Keeps k) h r.1.calls
    counted : held p o r.1.calls ≡ shrunk c

  saving-Counted :
      (pod : String) (d k : Key) (c : RedisCluster) (s : State)
      → Synced p o s
      → s.cluster ≡ shrunk c
      → Counted c s.calls (save_drained p pod d k s)
  unfolding save_drained Keeps
  saving-Counted pod d k c s synced same =
      let set = stateful_set (stateful_set_for s.cluster) in
      let t = (reconcile_owned p set s).1 in
      let t' = (modify_status (drained pod (p.now t.calls)) t).1 in
      subst (λ r. Counted c s.calls r) (sym (status_stops p e refuses _ t'))
        (record {
          error = refl;
          kept = λ j. also tt (reconcile_owned-Sends p (Keeps j) set tt tt tt s);
          counted =
              refused_held p e refuses o t'
              ∙ reconcile_owned-Synced p o set s synced
              ∙ reconcile_owned-cluster p set s
              ∙ same;
        })

  finish-Counted :
      (pod : String) (d k : Key) (s : State)
      → Synced p o s
      → Counted s.cluster s.calls (finish_drain p pod d k s)
  unfolding finish_drain Keeps
  finish-Counted pod d k s synced =
      let s' = (modify_spec one_less s).1 in
      let t : State = record s' { calls = update_cluster s'.cluster ∷ s'.calls } in
      let m =
        saving-Counted pod d k s.cluster t (taken_held p e refuses o one_less s synced) refl in
      subst (λ r. Counted s.cluster s.calls r) (sym (spec_goes p e refuses _ s'))
        (record {
          error = m.error;
          kept = λ j. then-Sends (also tt nothing) (m.kept j);
          counted = m.counted;
        })

  round-Counted :
      (s : State)
      → Synced p o s
      → DrainWorks p s.cluster s.calls
      → Counted s.cluster (get_job (drain_key s.cluster) ∷ s.calls) (check_drain_status p s)
  unfolding check_drain_status Keeps held wrote
  round-Counted s synced w =
      let c = s.cluster in
      let t = (fetch_job p (drain_key c) s).1 in
      let k = cleanup_key c in
      let m = finish-Counted c.status.pod_to_drain (drain_key c) k (fetch_job p k t).1 synced in
      rw (w.drain_answer, w.succeeded, w.cleanup_answer, w.over, w.unharmed)
        (record {
          error = m.error;
          kept = λ j. then-Sends (also tt nothing) (m.kept j);
          counted = m.counted;
        })

  -- The jobs of the first round are there for the second.
  works_again :
      (stay : JobsStay p) (s : State) (h : List Request)
      → Synced p o s
      → (w : DrainWorks p s.cluster s.calls) → lt32 0 w.cleanup.succeeded ≡ true
      → let t = (check_drain_status p s).1 in
        Sends (Keeps (drain_key s.cluster)) t.calls h
        → Sends (Keeps (cleanup_key s.cluster)) t.calls h
        → DrainWorks p (shrunk s.cluster) h
  unfolding Keeps
  works_again stay s h synced w clean drains cleans =
      let m = round-Counted s synced w in
      record {
        drain = w.drain;
        drain_answer =
            stay.stays
              (then-Sends (also tt nothing) (then-Sends (m.kept (drain_key s.cluster)) drains))
              w.drain_answer w.succeeded;
        succeeded = w.succeeded;
        cleanup = w.cleanup;
        cleanup_answer =
            stay.stays (also tt (then-Sends (m.kept (cleanup_key s.cluster)) cleans))
              w.cleanup_answer clean;
        over = w.over;
        unharmed = w.unharmed;
      }

  -- Where the server takes the specs and refuses the statuses, and a job that has succeeded stays
  -- until it is deleted, a round that finds the drain and its cleanup succeeded takes a master off
  -- the spec that the server holds and ends with the error; and the next round, on the object that
  -- the server then holds, takes a master off again for the same drain and ends with the error.
  -- Before the first round the server holds the object that the round works on; between the rounds
  -- nothing writes the object or deletes the two jobs.
  pub drain_counted_twice :
      (stay : JobsStay p) (s : State) (h : List Request)
      → Synced p o s
      → (w : DrainWorks p s.cluster s.calls) → lt32 0 w.cleanup.succeeded ≡ true
      → let c = s.cluster in
        let (first, t) = check_drain_status p s in
        Sends (Silent p) t.calls h
        → Sends (Keeps (key_in c (drain_name c))) t.calls h
        → Sends (Keeps (key_in c (cleanup_name c))) t.calls h
        → let (again, u) = check_drain_status p (reads_at p o h) in
          (first.error ≡ some (api e))
          × (held p o t.calls ≡ shrunk c)
          × (again.error ≡ some (api e))
          × (held p o u.calls ≡ shrunk (shrunk c))
  drain_counted_twice stay s h synced w clean silent drains cleans =
      let m = round-Counted s synced w in
      let same = Sends-held p o silent ∙ m.counted in
      let works = works_again stay s h synced w clean drains cleans in
      let m' =
        round-Counted (reads_at p o h) refl (subst (λ c. DrainWorks p c h) (sym same) works) in
      (m.error, m.counted, m'.error, m'.counted ∙ ap shrunk same)
