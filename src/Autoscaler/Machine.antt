-- ===== src/Autoscaler/Machine.antt =====
-- The state machine that `handleAutoScaling` documents, on the status alone: what one round may do to
-- it, each move with the phase in which it is allowed. A round that fails to save its status holds
-- the moved status in memory, and the next round begins from the saved one.
use redis_foxtrot_autoscaler.Prelude.{ℕ, ◌≡◌, Bool, true, false, ◌&&◌, String, arith}
use redis_foxtrot_autoscaler.Cluster.{RedisClusterStatus}
use redis_foxtrot_autoscaler.Trigger.{start_resharding, start_draining}
use redis_foxtrot_autoscaler.Reshard.{stop_resharding, reshard_failed, start_provisioning}
use redis_foxtrot_autoscaler.Provision.{finish_provisioning, stop_provisioning}
use redis_foxtrot_autoscaler.Drain.{clear_drain, drained}

-- The order of the tests in `handleAutoScaling`.
pub data Phase : Type 0 where
  draining resharding provisioning monitoring : Phase

abbrev phase_of_flags : Bool → Bool → Bool → Phase
phase_of_flags true _ _ = draining
phase_of_flags false true _ = resharding
phase_of_flags false false true = provisioning
phase_of_flags false false false = monitoring

unfoldable pub phase : RedisClusterStatus → Phase
phase st = phase_of_flags st.is_draining st.is_resharding st.is_provisioning_standby

pub data Move (st st' : RedisClusterStatus) : Type 0 where
  stay : st' ≡ st → Move st st'
  -- monitoring
  note_standby :
      (pod : String) → phase st ≡ monitoring → st' ≡ record st { standby_pod = pod } → Move st st'
  scale_up : (pod : String) → phase st ≡ monitoring → st' ≡ start_resharding pod st → Move st st'
  scale_down :
      (pod : String) (dests : String × String)
      → phase st ≡ monitoring
      → st' ≡ start_draining pod dests st
      → Move st st'
  -- resharding
  resharded : (now : ℕ) → phase st ≡ resharding → st' ≡ start_provisioning now st → Move st st'
  give_up_reshard : phase st ≡ resharding → st' ≡ stop_resharding st → Move st st'
  lose_reshard : phase st ≡ resharding → st' ≡ reshard_failed st → Move st st'
  -- provisioning
  provisioned :
      (pod : String) → phase st ≡ provisioning → st' ≡ finish_provisioning pod st → Move st st'
  lose_provisioning : phase st ≡ provisioning → st' ≡ stop_provisioning st → Move st st'
  -- draining: the drained pod becomes the standby
  drain_over : (now : ℕ) → phase st ≡ draining → st' ≡ drained st.pod_to_drain now st → Move st st'
  lose_drain : phase st ≡ draining → st' ≡ clear_drain st → Move st st'

-- At most one operation is in progress.
pub record IsExclusive (st : RedisClusterStatus) : Type 0 where
  pub drain_reshard : (st.is_draining && st.is_resharding) ≡ false
  pub drain_provision : (st.is_draining && st.is_provisioning_standby) ≡ false
  pub reshard_provision : (st.is_resharding && st.is_provisioning_standby) ≡ false

-- Every move keeps the operations exclusive.
pub Move-IsExclusive :
    {st st' : RedisClusterStatus} → Move st st' → IsExclusive st → IsExclusive st'
unfolding phase
Move-IsExclusive (stay e) v = ground arith
Move-IsExclusive (note_standby pod h e) v = ground arith
Move-IsExclusive (scale_up pod h e) v = ground arith
Move-IsExclusive (scale_down pod d h e) v = ground arith
Move-IsExclusive (resharded now h e) v = ground arith
Move-IsExclusive (give_up_reshard h e) v = ground arith
Move-IsExclusive (lose_reshard h e) v = ground arith
Move-IsExclusive (provisioned pod h e) v = ground arith
Move-IsExclusive (lose_provisioning h e) v = ground arith
Move-IsExclusive (drain_over now h e) v = ground arith
Move-IsExclusive (lose_drain h e) v = ground arith
