-- ===== src/Trigger/Effects.antt =====
-- What the start of a scaling does to the status.
use redis_foxtrot_autoscaler.Prelude.{◌≡◌, refl, ap, ◌∷◌, List, length, select, ltb, false}
use redis_foxtrot_autoscaler.Prelude.Int.{pos}
use redis_foxtrot_autoscaler.Cluster.{RedisClusterStatus}
use redis_foxtrot_autoscaler.Cluster.Index.{last_master_name}
use redis_foxtrot_autoscaler.Kube.{
  State, PodLoad, Platform, UpdateLaws, save_status, modify_status, pure, after, second, put_status,
  fail_api, or_else_state, update_status,
}
use redis_foxtrot_autoscaler.Trigger.{
  start_resharding, start_draining, is_master_load, destinations, sorted_masters, trigger_scale_up,
  trigger_scale_down,
}

-- The status is saved: it is the last thing sent, and the object in memory has it.
pub record SavesStatus (s : State) (st' : RedisClusterStatus) (s' : State) : Type 0 where
  pub kept : s'.cluster.status ≡ st'
  pub sent : s'.calls ≡ update_status (record (s.cluster) { status = st' }) ∷ s.calls

module _ {F : Type 0} (p : Platform F) (laws : UpdateLaws p) where
  pub trigger_scale_up-status :
      (t : PodLoad F) (s : State)
      → (trigger_scale_up p t s).1.cluster.status ≡ start_resharding t.pod_name s.cluster.status
  unfolding trigger_scale_up
  trigger_scale_up-status t s =
      save_status p laws (pure (after (pos second)))
        (modify_status (start_resharding t.pod_name) s).1 (λ u. refl)

  -- With two masters among the loads the status drains the last master.
  pub trigger_scale_down-drains :
      (ls : List (PodLoad F)) (s : State)
      → let c = s.cluster in
        ltb (length (select (is_master_load c) ls)) 2 ≡ false
        → (trigger_scale_down p ls s).1.cluster.status
          ≡ start_draining
              (last_master_name c)
              (destinations (last_master_name c) (sorted_masters p c ls))
              c.status
  unfolding trigger_scale_down
  trigger_scale_down-drains ls s enough =
      let pod = last_master_name s.cluster in
      let dests = destinations pod (sorted_masters p s.cluster ls) in
      rw enough (
        save_status p laws (pure (after (pos second)))
          (modify_status (start_draining pod dests) s).1 (λ u. refl))

module _ {F : Type 0} (p : Platform F) where
  -- The start of a scale-up is sent.
  pub trigger_scale_up-calls :
      (t : PodLoad F) (s : State)
      → let c = s.cluster in
        (trigger_scale_up p t s).1.calls
        ≡ update_status (record c { status = start_resharding t.pod_name c.status }) ∷ s.calls
  unfolding trigger_scale_up
  trigger_scale_up-calls t s =
      ap (λ (x : State). x.calls)
        (or_else_state (put_status p) fail_api (after (pos second))
          (modify_status (start_resharding t.pod_name) s).1)

  -- With two masters among the loads the start of the drain is sent.
  pub trigger_scale_down-calls :
      (ls : List (PodLoad F)) (s : State)
      → let c = s.cluster in
        ltb (length (select (is_master_load c) ls)) 2 ≡ false
        → (trigger_scale_down p ls s).1.calls
          ≡ update_status (record c {
            status =
                start_draining
                  (last_master_name c)
                  (destinations (last_master_name c) (sorted_masters p c ls))
                  c.status;
          })
            ∷ s.calls
  unfolding trigger_scale_down
  trigger_scale_down-calls ls s enough =
      let d = destinations (last_master_name s.cluster) (sorted_masters p s.cluster ls) in
      rw enough (
        ap (λ (x : State). x.calls)
          (or_else_state (put_status p) fail_api (after (pos second))
            (modify_status (start_draining (last_master_name s.cluster) d) s).1))
