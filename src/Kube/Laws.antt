-- ===== src/Kube/Laws.antt =====
-- What is documented of the parts of the platform that the proofs rely on.
use mathlib.Core.List.{Mem, Perm, Pairwise}
use redis_foxtrot_autoscaler.Prelude.{◌≡◌, Bool, true, false, List}
use redis_foxtrot_autoscaler.Prelude.Int32.{Int32, lt32}
use redis_foxtrot_autoscaler.Cluster.{RedisCluster}
use redis_foxtrot_autoscaler.Kube.Server.{PodLoad, Request, ok, Platform}

-- The order of float64: a NaN is below nothing, and what is not below a number that is not below a
-- third is not below that. An `int32` is converted exactly.
pub record FloatLaws {F : Type 0} (p : Platform F) : Type 0 where
  pub nan : F → Bool
  pub irreflexive : (a : F) → p.less a a ≡ false
  pub transitive : (a b c : F) → p.less a b ≡ true → p.less b c ≡ true → p.less a c ≡ true
  pub negative :
      (a b c : F) → nan b ≡ false → p.less a b ≡ false → p.less b c ≡ false → p.less a c ≡ false
  pub nan_below : (a b : F) → nan a ≡ true → p.less a b ≡ false
  pub exact : (a b : Int32) → p.less (p.of_int32 a) (p.of_int32 b) ≡ lt32 a b

-- `sort.Slice` rearranges the slice, and puts no element before one that is
-- less, if the order of the elements is total but for ties.
pub record SortLaws {F : Type 0} (p : Platform F) : Type 0 where
  pub rearranges :
      (less : PodLoad F → PodLoad F → Bool) (ls : List (PodLoad F)) → Perm (p.sort_slice less ls) ls
  pub ascending :
      (less : PodLoad F → PodLoad F → Bool) (ls : List (PodLoad F))
      → ((a b : PodLoad F) → Mem a ls → Mem b ls → less a b ≡ true → less b a ≡ false)
      → ((a b c : PodLoad F)
          → Mem a ls
          → Mem b ls
          → Mem c ls
          → less a b ≡ false
          → less b c ≡ false
          → less a c ≡ false)
      → Pairwise (λ a b. less b a ≡ false) (p.sort_slice less ls)

-- A successful `Update` or `Status().Update` answers with what was sent, as the server has saved it:
-- the object of an update whose resource version was the current one, and the status of a status
-- update.
pub record UpdateLaws {F : Type 0} (p : Platform F) : Type 0 where
  pub cluster_kept : (h : List Request) (c c' : RedisCluster) → p.write_cluster h c ≡ ok c' → c' ≡ c
  pub status_kept :
      (h : List Request) (c c' : RedisCluster) → p.write_status h c ≡ ok c' → c'.status ≡ c.status
