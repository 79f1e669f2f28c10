-- ===== src/Trigger/Destinations.antt =====
-- What `triggerScaleDown` chooses.
use mathlib.Core.List.{Mem, Perm, Permᴰ, Nodup, Nodup-cons, mem-cons, Mem-prop, mem-cons_of_mem}
use mathlib.Core.List.Perm
use mathlib.Core.Logic.{∥∥₁_elim}
use mathlib.Core.Logic.Or
use mathlib.Core.Path.{subst}
use native.Mathlib.Nat.{ℕ_set}
use redis_foxtrot_autoscaler.Prelude.{
  suc, ◌≤◌, ◌≡◌, ◌∙◌, refl, ap, inl, inr, Bool, true, false, List, [], ◌∷◌, String, arith, length,
  select, keep, Bool-cases, le→ltb,
}
use redis_foxtrot_autoscaler.Cluster.{RedisCluster}
use redis_foxtrot_autoscaler.Cluster.Index.{last_master_name}
use redis_foxtrot_autoscaler.Kube.{PodLoad, Platform, SortLaws, FloatLaws, State, update_status}
use redis_foxtrot_autoscaler.Trigger.Effects.{trigger_scale_down-calls}
use redis_foxtrot_autoscaler.Trigger.Pairs.{
  names, IsSound, IsLightest, Ascends, destinations-IsSound, destinations-IsLightest,
}
use redis_foxtrot_autoscaler.Trigger.{
  destinations, is_master_load, sorted_masters, trigger_scale_down, start_draining,
}

length-permᴰ : {F : Type 0} {xs ys : List (PodLoad F)} → Permᴰ xs ys → length xs ≡ length ys
length-permᴰ Permᴰ.nil = refl
length-permᴰ (Permᴰ.cons e q) = ap suc (length-permᴰ q)
length-permᴰ (Permᴰ.swap e f) = refl
length-permᴰ (Permᴰ.trans q r) = length-permᴰ q ∙ length-permᴰ r

length-perm : {F : Type 0} {xs ys : List (PodLoad F)} → Perm xs ys → length xs ≡ length ys
length-perm q = ∥∥₁_elim q (ℕ_set _ _) length-permᴰ

module _ {F : Type 0} (test : PodLoad F → Bool) where
  mem-select :
      (x : String) (ls : List (PodLoad F)) → Mem x (names (select test ls)) → Mem x (names ls)
  mem-select x [] m = m
  mem-select x (l ∷ ls) m = elim (Bool-cases (test l)) [
    | inl h ↦
        Or.elim Mem-prop
          (mem-cons.0 (subst (λ b. Mem x (names (keep test b l (select test ls)))) h m))
          (λ e. mem-cons.1 (Or.inl e)) (λ k. mem-cons_of_mem l.pod_name (mem-select x ls k))
    | inr h ↦
        mem-cons_of_mem l.pod_name
          (mem-select x ls (subst (λ b. Mem x (names (keep test b l (select test ls)))) h m))
  ]

  select-Nodup : (ls : List (PodLoad F)) → Nodup (names ls) → Nodup (names (select test ls))
  select-Nodup [] d = d
  select-Nodup (l ∷ ls) d = elim (Bool-cases (test l)) [
    | inl h ↦ rw h (
        Nodup-cons.1 (
          λ m. (Nodup-cons.0 d).0 (mem-select l.pod_name ls m),
          select-Nodup ls (Nodup-cons.0 d).1,
        ))
    | inr h ↦ rw h (select-Nodup ls (Nodup-cons.0 d).1)
  ]

module _ {F : Type 0} (p : Platform F) (floats : FloatLaws p) (sorts : SortLaws p) where
  open floats use {nan, irreflexive, transitive, negative}

  less_apart : (x y : F) → p.less x y ≡ true → p.less y x ≡ false
  less_apart x y h = elim (Bool-cases (p.less y x)) [
    | inr n ↦ n
    | inl back ↦ cc (transitive x y x h back, irreflexive x)
  ]

  module _ (c : RedisCluster) (ls : List (PodLoad F)) where
    abbrev masters : List (PodLoad F)
    masters = select (is_master_load c) ls

    sorted_masters-perm : Perm (sorted_masters p c ls) masters
    unfolding sorted_masters
    sorted_masters-perm = sorts.rearranges _ masters

    sorted_masters-Ascends :
        ((l : PodLoad F) → Mem l masters → nan l.memory_usage ≡ false)
        → Ascends p irreflexive (sorted_masters p c ls)
    unfolding sorted_masters
    sorted_masters-Ascends numbers =
        sorts.ascending _ masters (λ a b _ _. less_apart a.memory_usage b.memory_usage)
          (λ x y z _ my _. negative x.memory_usage y.memory_usage z.memory_usage (numbers y my))

    choice-IsSound :
        (drained : String)
        → Nodup (names ls)
        → 2 ≤ length masters
        → IsSound drained (names masters) (destinations drained (sorted_masters p c ls))
    choice-IsSound drained distinct two =
        let q = Perm.map (λ (l : PodLoad F). l.pod_name) sorted_masters-perm in
        let v =
          destinations-IsSound drained (sorted_masters p c ls)
            (omega (arith, length-perm sorted_masters-perm))
            (Perm.nodup (Perm.symm q) (select-Nodup (is_master_load c) ls distinct)) in
        record {
          first_known = (Perm.mem_iff q).0 v.first_known;
          first_other = v.first_other;
          second_known = elim (v.second_known) [
            | inl e ↦ inl e
            | inr k ↦ inr ((Perm.mem_iff q).0 k.0, k.1, k.2)
          ];
        }

    choice-IsLightest :
        (drained : String)
        → ((l : PodLoad F) → Mem l masters → nan l.memory_usage ≡ false)
        → 2 ≤ length masters
        → IsLightest p drained masters (destinations drained (sorted_masters p c ls)).0
    choice-IsLightest drained numbers two =
        let (x, known, name, least) =
          destinations-IsLightest p irreflexive drained (sorted_masters p c ls)
            (omega (arith, length-perm sorted_masters-perm)) (sorted_masters-Ascends numbers) in
        (
          x,
          (Perm.mem_iff sorted_masters-perm).0 known,
          name,
          λ l m other. least l ((Perm.mem_iff sorted_masters-perm).1 m) other,
        )

  -- With at least two loads of masters, all loads under distinct names, the scale-down saves a
  -- status that drains the last master's pod to other masters' pods: the first uses least memory
  -- among the loads of other pods, and the second is another one or none. The masters' usages are
  -- numbers, and float64 and sort.Slice are as documented.
  pub trigger_scale_down_choice :
      (s : State) (ls : List (PodLoad F))
      → let c = s.cluster in
        let masters = select (is_master_load c) ls in
        Nodup (names ls)
        → 2 ≤ length masters
        → ((l : PodLoad F) → Mem l masters → nan l.memory_usage ≡ false)
        → (d : String × String) × ((trigger_scale_down p ls s).1.calls
            ≡ update_status (record c { status = start_draining (last_master_name c) d c.status })
              ∷ s.calls)
          × IsSound (last_master_name c) (names masters) d
          × IsLightest p (last_master_name c) masters d.0
  trigger_scale_down_choice s ls distinct two numbers =
      let c = s.cluster in
      (
        destinations (last_master_name c) (sorted_masters p c ls),
        trigger_scale_down-calls p ls s (le→ltb _ 2 two),
        choice-IsSound c ls (last_master_name c) distinct two,
        choice-IsLightest c ls (last_master_name c) numbers two,
      )
