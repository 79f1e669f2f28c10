-- ===== src/Reconcile/History.antt =====
-- The operator over any number of rounds, for any resources: the calls that it has made are a history,
-- and the status of a resource is one that it has saved.
use mathlib.Core.List.{Memᴰ}
use mathlib.Core.Path.{subst}
use redis_foxtrot_autoscaler.Prelude.{◌≡◌, sym, ◌⊎◌, inl, inr, false, arith, List, []}
use redis_foxtrot_autoscaler.Cluster.{RedisCluster, RedisClusterStatus}
use redis_foxtrot_autoscaler.Kube.{
  Request, Key, Platform, UpdateLaws, ok, update_status, Sends, nothing, also, then-Sends,
}
use redis_foxtrot_autoscaler.Autoscaler.Machine.{IsExclusive}
use redis_foxtrot_autoscaler.Autoscaler.Exclusive.{SavesExclusive}
use redis_foxtrot_autoscaler.Reconcile.{reconcile}
use redis_foxtrot_autoscaler.Reconcile.Exclusive.{reconcile-Sends}

-- No operation is in progress, as in a resource that has just been created.
pub record IsFresh (st : RedisClusterStatus) : Type 0 where
  pub draining : st.is_draining ≡ false
  pub resharding : st.is_resharding ≡ false
  pub provisioning : st.is_provisioning_standby ≡ false

module _ {F : Type 0} (p : Platform F) where
  -- Nobody else writes the status: one that is read is that of a new resource, or was sent before.
  pub record OnlyWriter : Type 0 where
    pub origin :
        (h : List Request) (k : Key) (c : RedisCluster)
        → p.read_cluster h k ≡ ok c
        → IsFresh c.status
          ⊎ ((c' : RedisCluster) × Memᴰ (update_status c') h × (c.status ≡ c'.status))

  -- The calls of a sequence of rounds, each for some resource. The object in memory is new in each.
  pub data History : List Request → Type 0 where
    begin : History []
    round :
        {h : List Request} (k : Key) (c : RedisCluster)
        → History h
        → History (reconcile p k (record { cluster = c; calls = h })).1.calls

fresh-IsExclusive : (st : RedisClusterStatus) → IsFresh st → IsExclusive st
fresh-IsExclusive st f = ground arith

saved-IsExclusive :
    {h : List Request} (c : RedisCluster)
    → Sends SavesExclusive [] h
    → Memᴰ (update_status c) h
    → IsExclusive c.status
saved-IsExclusive c nothing m = elim m [ ]
saved-IsExclusive c (also r s) (Memᴰ.head e) = subst SavesExclusive (sym e) r
saved-IsExclusive c (also r s) (Memᴰ.tail m) = saved-IsExclusive c s m

module _ {F : Type 0} (p : Platform F) (laws : UpdateLaws p) (only : OnlyWriter p) where
  known-IsExclusive :
      (st : RedisClusterStatus) (h : List Request)
      → Sends SavesExclusive [] h
      → IsFresh st ⊎ ((c : RedisCluster) × Memᴰ (update_status c) h × (st ≡ c.status))
      → IsExclusive st
  known-IsExclusive st h s (inl f) = fresh-IsExclusive st f
  known-IsExclusive st h s (inr (c, m, e)) = subst IsExclusive (sym e) (saved-IsExclusive c s m)

  History-Sends : {h : List Request} → History p h → Sends SavesExclusive [] h
  History-Sends begin = nothing
  History-Sends (round {h = h} k c past) =
      let sent = History-Sends past in
      then-Sends sent (
        reconcile-Sends p laws k (record { cluster = c; calls = h })
          (λ c' found. known-IsExclusive c'.status h sent (only.origin h k c' found)))

  -- In every history of reconcile rounds, for any resources, each status that the operator has
  -- sent has at most one of draining, resharding and provisioning in progress. Each status that is
  -- read is taken to be one with none of them in progress, or one that was sent before; and a
  -- successful update to answer with what was sent.
  pub every_save-IsExclusive :
      {h : List Request}
      → History p h
      → (c : RedisCluster) → Memᴰ (update_status c) h
      → IsExclusive c.status
  every_save-IsExclusive past c m = saved-IsExclusive c (History-Sends past) m
