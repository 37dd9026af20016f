-- ===== src/Removals/Points.antt =====
-- pkg/checks/diff/removals.go: `removalPoint` is the shortest prefix that the target lacks.
use kubechecks.Common.{
  ℕ, zero, suc, ◌+◌, ◌≤◌, ◌<◌, Bool, true, false, ◌≡◌, refl, ltb, ltb→lt, ltb→le, subst, take,
  take-length, length, arith, Bool-cases, List-cases, ap, inl, inr, ◌⊎◌,
}
use kubechecks.Removals.{Value, FieldPath, has_path, removal_from, removal_point}

module _ (equals : Value → Value → Bool) where
  -- What holds from the next length on, and here, holds from here on.
  from_here :
      (target : Value) (p : FieldPath) (i : ℕ) {Q : ℕ → Type 0}
      → has_path equals target (take i p) ≡ true
      → ((j : ℕ) → suc i ≤ j → Q j → has_path equals target (take j p) ≡ true)
      → (j : ℕ) → i ≤ j
      → Q j
      → has_path equals target (take j p) ≡ true
  from_here target p i there g j a b = elim (Bool-cases (ltb i j)) [
    | inl l ↦ g j (ltb→lt _ _ l) b
    | inr e ↦
        let q : i ≡ j = omega (arith, ltb→le _ _ e) in
        subst (λ t. has_path equals target (take t p) ≡ true) q there
  ]

  -- A result of the loop from `i` on: the first prefix that is missing.
  removal_from_lem :
      (target : Value) (p : FieldPath) (left i : ℕ)
      → i + left ≡ suc (length p)
      → ((k : ℕ) × (i ≤ k)
          × (k ≤ length p)
          × (removal_from equals target p left i ≡ take k p)
          × (has_path equals target (take k p) ≡ false)
          × ((j : ℕ) → i ≤ j → j < k → has_path equals target (take j p) ≡ true))
        ⊎ ((removal_from equals target p left i ≡ p)
            × ((j : ℕ) → i ≤ j → j ≤ length p → has_path equals target (take j p) ≡ true))
  unfolding removal_from
  removal_from_lem target p zero i h = inr (refl, (λ j a b. absurd (omega arith)))
  removal_from_lem target p (suc left) i h = elim (Bool-cases (has_path equals target (take i p))) [
    | inr missing ↦
        inl (i, omega arith, omega arith, rw missing refl, missing, (λ j a b. absurd (omega arith)))
    | inl there ↦ elim (removal_from_lem target p left (suc i) (omega arith)) [
      | inl (k, a, b, e, f, g) ↦
          inl (k, omega arith, b, rw there e, f, from_here target p i {Q = λ j. j < k} there g)
      | inr (e, g) ↦ inr (rw there e, from_here target p i {Q = λ j. j ≤ length p} there g)
    ]
  ]

  -- For a path that the target lacks, `removalPoint` is the shortest of its beginnings that the
  -- target lacks: all shorter ones are there.
  pub removal_point_shortest :
      (target : Value) (p : FieldPath)
      → has_path equals target p ≡ false
      → (k : ℕ) × (1 ≤ k)
        × (k ≤ length p)
        × (removal_point equals target p ≡ take k p)
        × (has_path equals target (take k p) ≡ false)
        × ((j : ℕ) → j < k → has_path equals target (take j p) ≡ true)
  unfolding removal_point has_path
  removal_point_shortest target p h = elim (removal_from_lem target p (length p) 1 (omega arith)) [
    | inl (k, a, b, e, f, g) ↦ (k, a, b, e, f, from_start k g)
    | inr (e, g) ↦ elim (List-cases p) [
      | inl empty ↦ absurd (ground arith)
      | inr (pe, rest, some_path) ↦
          let there = g (length p) (omega (arith, ap length some_path)) (omega arith) in
          absurd
            (cc (ap (has_path equals target) (take-length (length p) p (omega arith)), there, h))
    ]
  ]
    where
      from_start :
          (k : ℕ)
          → ((j : ℕ) → 1 ≤ j → j < k → has_path equals target (take j p) ≡ true)
          → (j : ℕ) → j < k
          → has_path equals target (take j p) ≡ true
      from_start k g zero b = refl
      from_start k g (suc j) b = g (suc j) (omega arith) b
