-- ===== src/Trigger/Pairs.antt =====
-- The two destinations of a drain, from the loads in rising order of memory usage.
use mathlib.Core.List.{
  Mem, Nodup, Pairwise, Pairwise-cons, mem-cons, mem-cons_self, mem-cons_of_mem,
}
use mathlib.Core.Logic.Or
use redis_foxtrot_autoscaler.Prelude.{
  ◌≤◌, ◌≡◌, ◌≢◌, ◌∙◌, sym, refl, ap, ◌⊎◌, inl, inr, Bool, false, List, [], ◌∷◌, map, String, arith,
  length, Bool-cases,
}
use redis_foxtrot_autoscaler.Prelude.Text.{str_eq, str_ne, str_same}
use redis_foxtrot_autoscaler.Kube.{PodLoad, Platform}
use redis_foxtrot_autoscaler.Trigger.{destinations}

abbrev pub names : {F : Type 0} → List (PodLoad F) → List String
names ls = map (λ l. l.pod_name) ls

-- The choice is sound: the drained pod gets nothing, the first destination is a pod of the list, and
-- the second is another one or none.
pub record IsSound (drained : String) (known : List String) (d : String × String) : Type 0 where
  pub first_known : Mem d.0 known
  pub first_other : drained ≢ d.0
  pub second_known : (d.1 ≡ "") ⊎ (Mem d.1 known × (drained ≢ d.1) × (d.0 ≢ d.1))

module _ {F : Type 0} (drained : String) (a b : PodLoad F) (ls : List (PodLoad F))
    (apart : a.pod_name ≢ b.pod_name) where
  a_known : Mem a.pod_name (names (a ∷ b ∷ ls))
  a_known = mem-cons_self

  b_known : Mem b.pod_name (names (a ∷ b ∷ ls))
  b_known = mem-cons_of_mem a.pod_name mem-cons_self

  pair-IsSound : IsSound drained (names (a ∷ b ∷ ls)) (destinations drained (a ∷ b ∷ ls))
  unfolding destinations
  pair-IsSound = elim (Bool-cases (str_eq drained a.pod_name)) [
    | inl same ↦ rw same (record {
      first_known = b_known;
      first_other = λ e. apart (sym (str_same drained a.pod_name same) ∙ e);
      second_known = inl refl;
    })
    | inr other ↦ elim (Bool-cases (str_eq drained b.pod_name)) [
      | inl same ↦
          rw (other, same)
            (record {
              first_known = a_known;
              first_other = str_ne drained a.pod_name other;
              second_known = inl refl;
            })
      | inr other2 ↦
          rw (other, other2)
            (record {
              first_known = a_known;
              first_other = str_ne drained a.pod_name other;
              second_known = inr (b_known, str_ne drained b.pod_name other2, apart);
            })
    ]
  ]

head_apart :
    {F : Type 0} (a b : PodLoad F) (ls : List (PodLoad F))
    → Nodup (names (a ∷ b ∷ ls))
    → a.pod_name ≢ b.pod_name
head_apart a b ls d e = (Pairwise-cons.0 d).0 b.pod_name mem-cons_self e

pub destinations-IsSound :
    {F : Type 0} (drained : String) (ls : List (PodLoad F))
    → 2 ≤ length ls
    → Nodup (names ls)
    → IsSound drained (names ls) (destinations drained ls)
destinations-IsSound drained [] h d = absurd (omega arith)
destinations-IsSound drained (a ∷ []) h d = absurd (omega arith)
destinations-IsSound drained (a ∷ b ∷ ls) h d = pair-IsSound drained a b ls (head_apart a b ls d)

-- The load of the named pod: no load of another pod than the drained one uses less memory.
abbrev pub IsLightest : {F : Type 0} → Platform F → String → List (PodLoad F) → String → Type 0
IsLightest {F} p drained ls name =
    (x : PodLoad F) × Mem x ls
    × (x.pod_name ≡ name)
    × ((l : PodLoad F)
        → Mem l ls
        → drained ≢ l.pod_name
        → p.less l.memory_usage x.memory_usage ≡ false)

Bool-set : IsSet Bool
Bool-set = hlevel

module _ {F : Type 0} (p : Platform F) (irreflexive : (a : F) → p.less a a ≡ false) where
  abbrev pub Ascends : List (PodLoad F) → Type 0
  Ascends ls = Pairwise (λ a b. p.less b.memory_usage a.memory_usage ≡ false) ls

  least_of_head :
      (a : PodLoad F) (ls : List (PodLoad F))
      → Ascends (a ∷ ls)
      → (l : PodLoad F) → Mem l (a ∷ ls)
      → p.less l.memory_usage a.memory_usage ≡ false
  least_of_head a ls asc l m =
      Or.elim (Bool-set _ _) (mem-cons.0 m) (λ e. rw e (irreflexive a.memory_usage))
        (λ k. (Pairwise-cons.0 asc).0 l k)

  pair-IsLightest :
      (drained : String) (a b : PodLoad F) (ls : List (PodLoad F))
      → Ascends (a ∷ b ∷ ls)
      → IsLightest p drained (a ∷ b ∷ ls) (destinations drained (a ∷ b ∷ ls)).0
  unfolding destinations
  pair-IsLightest drained a b ls asc = elim (Bool-cases (str_eq drained a.pod_name)) [
    | inl same ↦ rw same (
      b,
      mem-cons_of_mem a mem-cons_self,
      refl,
      λ l m other.
          Or.elim (Bool-set _ _) (mem-cons.0 m)
            (λ e. absurd (other (str_same drained a.pod_name same ∙ ap (λ x. x.pod_name) (sym e))))
            (least_of_head b ls (Pairwise-cons.0 asc).1 l),
    )
    | inr other ↦ elim (Bool-cases (str_eq drained b.pod_name)) [
      | inl same ↦ rw (other, same) (a, mem-cons_self, refl, λ l m _. least_of_head a _ asc l m)
      | inr far ↦ rw (other, far) (a, mem-cons_self, refl, λ l m _. least_of_head a _ asc l m)
    ]
  ]

  pub destinations-IsLightest :
      (drained : String) (ls : List (PodLoad F))
      → 2 ≤ length ls
      → Ascends ls
      → IsLightest p drained ls (destinations drained ls).0
  destinations-IsLightest drained [] h asc = absurd (omega arith)
  destinations-IsLightest drained (a ∷ []) h asc = absurd (omega arith)
  destinations-IsLightest drained (a ∷ b ∷ ls) h asc = pair-IsLightest drained a b ls asc
