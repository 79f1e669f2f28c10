-- ===== src/Examples/Sort.antt =====
-- Insertion sort: a `sort.Slice` that does what is documented of it.
use mathlib.Core.List.{
  Mem, Perm, Pairwise, Pairwise-cons, not-mem-nil, mem-cons, mem-cons_self, mem-cons_of_mem,
}
use mathlib.Core.List.Perm
use mathlib.Core.Logic.Or
use redis_foxtrot_autoscaler.Prelude.{
  ◌≡◌, Bool, true, false, List, [], ◌∷◌, inl, inr, Bool-cases, if◌then◌else◌,
}

Bool-set : IsSet Bool
Bool-set = hlevel

module _ {A : Type 0} (less : A → A → Bool) where
  unfoldable pub insert_by : A → List A → List A
  insert_by x [] = x ∷ []
  insert_by x (y ∷ ys) = let rest = insert_by x ys in if less x y then x ∷ y ∷ ys else y ∷ rest

  unfoldable pub insertion_sort : List A → List A
  insertion_sort [] = []
  insertion_sort (x ∷ xs) = insert_by x (insertion_sort xs)

  insert_by-perm : (x : A) (ys : List A) → Perm (insert_by x ys) (x ∷ ys)
  unfolding insert_by
  insert_by-perm x [] = Perm.refl _
  insert_by-perm x (y ∷ ys) = elim (Bool-cases (less x y)) [
    | inl h ↦ rw h (Perm.refl _)
    | inr h ↦ rw h (Perm.trans (Perm.cons y (insert_by-perm x ys)) (Perm.swap x y ys))
  ]

  pub insertion_sort-perm : (xs : List A) → Perm (insertion_sort xs) xs
  unfolding insertion_sort
  insertion_sort-perm [] = Perm.refl _
  insertion_sort-perm (x ∷ xs) =
      Perm.trans (insert_by-perm x (insertion_sort xs)) (Perm.cons x (insertion_sort-perm xs))

module _ {A : Type 0} (less : A → A → Bool) (all : List A)
    (asymmetric : (a b : A) → Mem a all → Mem b all → less a b ≡ true → less b a ≡ false)
    (negative : (a b c : A)
      → Mem a all
      → Mem b all
      → Mem c all
      → less a b ≡ false
      → less b c ≡ false
      → less a c ≡ false) where
  abbrev Sorted : List A → Type 0
  Sorted ys = Pairwise (λ a b. less b a ≡ false) ys

  abbrev Among : List A → Type 0
  Among ys = (z : A) → Mem z ys → Mem z all

  insert_by-Sorted :
      (x : A) (ys : List A) → Mem x all → Among ys → Sorted ys → Sorted (insert_by less x ys)
  unfolding insert_by
  insert_by-Sorted x [] mx among asc = Pairwise-cons.1 ((λ z m. absurd (not-mem-nil m)), asc)
  insert_by-Sorted x (y ∷ ys) mx among asc =
      let (low, up) = Pairwise-cons.0 asc in
      let my = among y mem-cons_self in
      elim (Bool-cases (less x y)) [
        | inl h ↦
            let front = asymmetric x y mx my h in
            rw h (
              Pairwise-cons.1 (
                λ z m.
                    Or.elim (Bool-set _ _) (mem-cons.0 m) (λ e. rw e front)
                      (λ k. negative z y x (among z m) my mx (low z k) front),
                asc,
              ))
        | inr h ↦ rw h (
            Pairwise-cons.1 (
              λ z m.
                  Or.elim (Bool-set _ _)
                    (mem-cons.0 ((Perm.mem_iff (insert_by-perm less x ys)).0 m)) (λ e. rw e h)
                    (low z),
              insert_by-Sorted x ys mx (λ z m. among z (mem-cons_of_mem y m)) up,
            ))
      ]

  sort-Sorted : (xs : List A) → Among xs → Sorted (insertion_sort less xs)
  unfolding insertion_sort
  sort-Sorted [] among = Pairwise.nil
  sort-Sorted (x ∷ xs) among =
      let rest : Among xs = λ z m. among z (mem-cons_of_mem x m) in
      insert_by-Sorted x (insertion_sort less xs) (among x mem-cons_self)
        (λ z m. rest z ((Perm.mem_iff (insertion_sort-perm less xs)).0 m)) (sort-Sorted xs rest)

  pub insertion_sort-Sorted : Sorted (insertion_sort less all)
  insertion_sort-Sorted = sort-Sorted all (λ z m. m)
