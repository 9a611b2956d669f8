-- ===== src/Base/Membership.antt =====
-- What is found in a list stands in the list.
use Prim.Native.Nat.{ℕ}
use mathlib.Core.Path.{◌≡◌}
use mathlib.Core.Logic.{inl, inr}
use mathlib.Core.Logic.Or
use mathlib.Core.Bool.{Bool, true, Bool-set}
use mathlib.Core.Option.{some}
use mathlib.Core.List.{
  List, [], ◌∷◌, Mem, Mem-prop, not-mem-nil, mem-cons_self, mem-cons_of_mem, eq-or-mem_of_mem-cons,
}
use native.Mathlib.Omega.{arith}
use group_assessment_agent.Base.Tests.{ltb, Bool-cases, Option-cases}
use group_assessment_agent.Base.Lists.{find, select}
use group_assessment_agent.Base.Sort.{latest_by, later}

module _ {A : Type 0} where
  pub find-Mem : (p : A → Bool) (l : List A) (a : A) → find p l ≡ some a → Mem a l
  find-Mem p [] a h = absurd (ground arith)
  find-Mem p (x ∷ xs) a h = elim (Bool-cases (p x)) [
    | inl holds ↦ let same : a ≡ x = ground arith in rw same mem-cons_self
    | inr fails ↦ mem-cons_of_mem x (find-Mem p xs a (ground arith))
  ]

  pub Mem-select : (p : A → Bool) (l : List A) (a : A) → Mem a (select p l) → Mem a l
  Mem-select p [] a h = h
  Mem-select p (x ∷ xs) a h = elim (Bool-cases (p x)) [
    | inl holds ↦
        let h' : Mem a (x ∷ select p xs) = rw holds at h in
        Or.elim Mem-prop (eq-or-mem_of_mem-cons h') (λ e. rw e mem-cons_self)
          (λ m. mem-cons_of_mem x (Mem-select p xs a m))
    | inr fails ↦ mem-cons_of_mem x (Mem-select p xs a (rw fails at h))
  ]

  pub select-holds : (p : A → Bool) (l : List A) (a : A) → Mem a (select p l) → p a ≡ true
  select-holds p [] a h = absurd (not-mem-nil h)
  select-holds p (x ∷ xs) a h = elim (Bool-cases (p x)) [
    | inl holds ↦
        let h' : Mem a (x ∷ select p xs) = rw holds at h in
        Or.elim (Bool-set (p a) true) (eq-or-mem_of_mem-cons h') (λ e. rw e holds)
          (λ m. select-holds p xs a m)
    | inr fails ↦ select-holds p xs a (rw fails at h)
  ]

  -- The latest of the selected rows is a row, and one that is selected.
  pub latest-select :
      (key : A → ℕ) (p : A → Bool) (l : List A) (a : A)
      → latest_by key (select p l) ≡ some a
      → (p a ≡ true) × Mem a l
  unfolding latest_by
  latest-select key p [] a h = absurd (ground arith)
  latest-select key p (x ∷ xs) a h = elim (Bool-cases (p x)) [
    | inl holds ↦
        let h' : later key x (latest_by key (select p xs)) ≡ some a = rw holds at h in
        elim (Option-cases (latest_by key (select p xs))) [
          | inl e ↦ let same : a ≡ x = ground arith in (rw same holds, rw same mem-cons_self)
          | inr (y, e) ↦ elim (Bool-cases (ltb (key x) (key y))) [
            | inl less ↦
                let same : a ≡ y = ground arith in
                let (q, m) = latest-select key p xs y e in
                (rw same q, rw same (mem-cons_of_mem x m))
            | inr more ↦ let same : a ≡ x = ground arith in (rw same holds, rw same mem-cons_self)
          ]
        ]
    | inr fails ↦ let (q, m) = latest-select key p xs a (rw fails at h) in (q, mem-cons_of_mem x m)
  ]
