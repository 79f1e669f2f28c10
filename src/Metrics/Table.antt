-- ===== src/Metrics/Table.antt =====
-- The maps of the samples, against their description: the last sample of a pod is its value.
use redis_foxtrot_autoscaler.Prelude.{
  ◌≡◌, refl, sym, ap, ◌∙◌, inl, inr, Bool-cases, Bool, true, false, Option, none, some, List, [],
  ◌∷◌, String, if◌then◌else◌,
}
use redis_foxtrot_autoscaler.Prelude.Text.{str_eq, str_same, str_ne}
use redis_foxtrot_autoscaler.Kube.{Vector}
use redis_foxtrot_autoscaler.Metrics.{insert, lookup, collect}

module _ {F : Type 0} where
  abbrev later_or : Option F → Option F → Option F
  later_or (some v) o = some v
  later_or none o = o

  -- The value of the last sample of the pod.
  abbrev pub last_value : String → Vector F → Option F
  last_value k [] = none
  last_value k ((j, v) ∷ vs) = later_or (last_value k vs) (if str_eq k j then some v else none)

  lookup-insert :
      (k j : String) (v : F) (m : List (String × F))
      → lookup k (insert j v m) ≡ (if str_eq k j then some v else lookup k m)
  unfolding lookup insert
  lookup-insert k j v [] = refl
  lookup-insert k j v ((i, w) ∷ m) = elim (Bool-cases (str_eq j i)) [
    | inl same ↦
        let ki : str_eq k i ≡ str_eq k j = ap (λ x. str_eq k x) (sym (str_same j i same)) in
        elim (Bool-cases (str_eq k j)) [
          | inl found ↦ rw (same, found) refl
          | inr on ↦ rw (same, ki, on) refl
        ]
    | inr other ↦ elim (Bool-cases (str_eq k i)) [
      | inl found ↦ elim (Bool-cases (str_eq k j)) [
        | inl equal ↦ absurd (str_ne j i other (sym (str_same k j equal) ∙ str_same k i found))
        | inr apart ↦ rw (other, found, apart) refl
      ]
      | inr on ↦ rw (other, on) (lookup-insert k j v m)
    ]
  ]

  later_assoc :
      (o : Option F) (v : F) (b : Bool) (l : Option F)
      → later_or o (if b then some v else l) ≡ later_or (later_or o (if b then some v else none)) l
  later_assoc (some w) v b l = refl
  later_assoc none v true l = refl
  later_assoc none v false l = refl

  later_none : (o : Option F) → later_or o none ≡ o
  later_none none = refl
  later_none (some v) = refl

  lookup-collect :
      (k : String) (vs : Vector F) (m : List (String × F))
      → lookup k (collect vs m) ≡ later_or (last_value k vs) (lookup k m)
  unfolding collect
  lookup-collect k [] m = refl
  lookup-collect k ((j, v) ∷ vs) m =
      lookup-collect k vs (insert j v m)
      ∙ (rw (lookup-insert k j v m) (later_assoc (last_value k vs) v (str_eq k j) (lookup k m)))

  -- The map of the samples has for each pod the value of its last sample, and no value for a pod
  -- without one.
  pub collect-last_value : (k : String) (vs : Vector F) → lookup k (collect vs []) ≡ last_value k vs
  unfolding lookup
  collect-last_value k vs = lookup-collect k vs [] ∙ later_none (last_value k vs)
