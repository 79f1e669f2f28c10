-- ===== src/Cluster/Index/Bounds.antt =====
-- The `int32` index arithmetic does not overflow on clusters whose pods an `int32` can count, and the
-- index of the drained pod is the standby's index after the scale-down.
use native.Mathlib.Nat.{mod-eq_of_lt}
use redis_foxtrot_autoscaler.Prelude.{ℕ, zero, suc, ◌+◌, ◌-◌, ◌*◌, ◌≤◌, ◌<◌, ◌≡◌, refl, arith}
use redis_foxtrot_autoscaler.Prelude.Int32.{half, modulus, sub32, add32, mul32}
use redis_foxtrot_autoscaler.Cluster.{RedisClusterSpec, RedisCluster}
use redis_foxtrot_autoscaler.Cluster.Index.{
  total_replicas, standby_index, last_master_index, standby_pod_name, last_master_name,
}

-- The pods of the cluster are fewer than 2 ^ 31.
abbrev pub Fits : RedisClusterSpec → Type 0
Fits s = (s.masters + 1) * (1 + s.replicas_per_master) < half

product_bounds :
    (m r : ℕ)
    → (m + 1) * (1 + r) < half
    → (m + 1 < half) × (1 + r < half) × (m * (1 + r) < half) × ((m - 1) * (1 + r) < half)
product_bounds m r h = (grind arith, grind arith, grind arith, grind arith)

step_up : (m r : ℕ) → (m + 1) * (1 + r) ≡ m * (1 + r) + (1 + r)
step_up m r = omega arith

group_steps : (m r : ℕ) → 1 ≤ m → m * (1 + r) ≡ (m - 1) * (1 + r) + (1 + r)
group_steps (suc m) r h = grind (arith, step_up m r)
group_steps zero r h = absurd (omega arith)

pub up_down : (m : ℕ) → m < modulus → sub32 (add32 m 1) 1 ≡ m
up_down m h = omega arith

mul32_exact : (x y a g : ℕ) → x ≡ a → y ≡ g → a * g < half → mul32 x y ≡ a * g
mul32_exact x y a g ex ey h = rw (ex, ey, mod-eq_of_lt {n = a * g} {m = modulus} (omega arith))

module _ (s : RedisClusterSpec) (fits : Fits s) where
  -- The three products in `int32` are the products of the counts.
  pub index_exact :
      1 ≤ s.masters
      → (total_replicas s ≡ (s.masters + 1) * (1 + s.replicas_per_master))
        × (standby_index s ≡ s.masters * (1 + s.replicas_per_master))
        × (last_master_index s ≡ (s.masters - 1) * (1 + s.replicas_per_master))
  unfolding total_replicas standby_index last_master_index
  index_exact h =
      let m = s.masters in
      let g = 1 + s.replicas_per_master in
      let (b1, b2, b3, b4) = product_bounds s.masters s.replicas_per_master fits in
      (
        mul32_exact _ _ (m + 1) g (omega arith) (omega arith) fits,
        mul32_exact _ _ m g refl (omega arith) b3,
        mul32_exact _ _ (m - 1) g (omega arith) (omega arith) b4,
      )

  -- On a cluster of at least one master whose pods an int32 can count, the index computations do
  -- not overflow: the groups of the last master and of the standby are the last two of the
  -- stateful set, each one group after the one before.
  pub groups_in_order :
      1 ≤ s.masters
      → (standby_index s ≡ last_master_index s + (1 + s.replicas_per_master))
        × (total_replicas s ≡ standby_index s + (1 + s.replicas_per_master))
        × (total_replicas s < half)
  groups_in_order h =
      let (total, standby, last) = index_exact h in
      rw (total, standby, last)
        (
          group_steps s.masters s.replicas_per_master h,
          step_up s.masters s.replicas_per_master,
          fits,
        )

-- For a valid int32 of masters, when they have grown by one the standby's pod is the last
-- master's, and when they have shrunk by one the last master's pod is the standby's.
pub roles_swap :
    (c : RedisCluster)
    → c.spec.masters < modulus
    → (last_master_name (record c { spec = record (c.spec) { masters = add32 c.spec.masters 1 } })
        ≡ standby_pod_name c)
      × (standby_pod_name (record c { spec = record (c.spec) { masters = sub32 c.spec.masters 1 } })
          ≡ last_master_name c)
unfolding last_master_name standby_pod_name last_master_index standby_index
roles_swap c h = (rw (up_down c.spec.masters h), refl)
