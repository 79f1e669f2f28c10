-- ===== src/Reconcile/Rejects.antt =====
-- The rounds of `Reconcile` that end before anything is written.
use redis_foxtrot_autoscaler.Prelude.{◌≡◌, refl, ◌⊎◌, inl, inr, Option, none, some, List, ◌∷◌}
use redis_foxtrot_autoscaler.Errors.{Error, not_found, failure}
use redis_foxtrot_autoscaler.Cluster.{RedisCluster}
use redis_foxtrot_autoscaler.Cluster.Spec.{set_defaults, validate_spec}
use redis_foxtrot_autoscaler.Kube.{
  State, Key, Request, Response, Platform, ok, err, get_cluster, fetch_cluster,
}
use redis_foxtrot_autoscaler.Reconcile.{hold, if_valid, reconcile_found, reconcile}

module _ {F : Type 0} (p : Platform F) where
  -- A resource was read whose spec is accepted with its defaults.
  abbrev pub FoundValid : List Request → Key → Type 0
  FoundValid h k =
      (c : RedisCluster) × (p.read_cluster h k ≡ ok c)
      × (validate_spec (set_defaults c).spec ≡ none)

  valid_first :
      (k : Key) (h : List Request) (c : RedisCluster) (o : Option Error) (s : State)
      → p.read_cluster h k ≡ ok c
      → validate_spec (set_defaults c).spec ≡ o
      → ((if_valid p o s).1.calls ≡ s.calls) ⊎ FoundValid h k
  valid_first k h c (some e) s found v = inl refl
  valid_first k h c none s found v = inr (c, found, v)

  found_first :
      (k : Key) (h : List Request) (r : Response RedisCluster) (s : State)
      → p.read_cluster h k ≡ r
      → ((reconcile_found p r s).1.calls ≡ s.calls) ⊎ FoundValid h k
  found_first k h (err not_found) s e = inl refl
  found_first k h (err (failure n)) s e = inl refl
  found_first k h (ok c) s e =
      valid_first k h c (validate_spec (set_defaults c).spec) (hold (set_defaults c) s).1 e refl

  -- A round of Reconcile sends nothing but the read of the resource, unless that read answers with
  -- a resource whose spec is accepted with its defaults.
  pub reconcile_only_valid :
      (k : Key) (s : State)
      → ((reconcile p k s).1.calls ≡ get_cluster k ∷ s.calls) ⊎ FoundValid s.calls k
  unfolding reconcile
  reconcile_only_valid k s =
      found_first k s.calls (p.read_cluster s.calls k) (fetch_cluster p k s).1 refl
