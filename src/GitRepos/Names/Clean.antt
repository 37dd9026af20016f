-- ===== src/GitRepos/Names/Clean.antt =====
-- pkg/git/repo.go: what `sanitizeBranchName` makes of a name.
use kubechecks.Common.{
  ℕ, zero, suc, ◌≤◌, ◌<◌, Bytes, codes, Bool, true, false, ◌&&◌, ◌||◌, [], ◌∷◌, ◌≡◌, refl, contains,
  ◌==◌, length, arith, Bool-cases, inl, inr,
}
use kubechecks.GitRepos.Names.{pair_hyphens, collapse}

-- Two consecutive hyphens stand in the name.
abbrev has_pair : Bytes → Bool
has_pair [] = false
has_pair (c ∷ []) = false
has_pair (c ∷ (d ∷ s)) = (c == b'-' && d == b'-') || has_pair (d ∷ s)

contains_pair : (s : Bytes) → contains s (codes "--") ≡ has_pair s
contains_pair [] = refl
contains_pair (c ∷ []) = ground arith
contains_pair (c ∷ (d ∷ s)) = ground (arith, contains_pair (d ∷ s))

-- A round never lengthens a name, with the byte that waits.
length-pair_hyphens :
    (s : Bytes)
    → (length (pair_hyphens false s) ≤ length s) × (length (pair_hyphens true s) ≤ suc (length s))
unfolding pair_hyphens
length-pair_hyphens [] = (omega arith, omega arith)
length-pair_hyphens (c ∷ s) = ground (arith, length-pair_hyphens s)

-- A round takes a byte of a name with consecutive hyphens.
pair_hyphens_shorter :
    (s : Bytes)
    → (has_pair s ≡ true → length (pair_hyphens false s) < length s)
      × (has_pair (b'-' ∷ s) ≡ true → length (pair_hyphens true s) ≤ length s)
unfolding pair_hyphens
pair_hyphens_shorter [] = (ground arith, ground arith)
pair_hyphens_shorter (c ∷ []) = (ground arith, ground arith)
pair_hyphens_shorter (c ∷ (d ∷ s)) =
    ground (arith, pair_hyphens_shorter (d ∷ s), length-pair_hyphens (d ∷ s))

-- The loop that removes consecutive hyphens ends: as many rounds as the name has bytes leave none.
collapse-has_pair : (n : ℕ) (s : Bytes) → length s ≤ n → has_pair (collapse n s) ≡ false
unfolding collapse
collapse-has_pair zero [] h = refl
collapse-has_pair zero (c ∷ s) h = absurd (omega arith)
collapse-has_pair (suc n) s h = elim (Bool-cases (has_pair s)) [
  | inr e ↦ rw (contains_pair s, e) e
  | inl e ↦
      rw (contains_pair s, e)
        (collapse-has_pair n (pair_hyphens false s) (omega (arith, (pair_hyphens_shorter s).0 e)))
]
