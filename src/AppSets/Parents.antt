-- ===== src/AppSets/Parents.antt =====
-- pkg/appdir/appset_directory.go: which directories `anyParentMatches` comes to.
use kubechecks.Common.{
  ℕ, zero, suc, ◌≤◌, ◌<◌, Bytes, codes, Bool, true, ◌||◌, [], ◌∷◌, ◌++◌, reverse, ◌≡◌, refl, sym,
  subst, ◌↔◌, ap, ◌∙◌, length, bytes_eq, bytes_eq_iff, ◌==◌, List-cases, ==_iff, ◌⊎◌, Bool-cases,
  inl, inr, arith,
}
use mathlib.Core.List.{reverse-cons}
use kubechecks.AppDir.{clean}
use kubechecks.AppDir.Cleaning.{
  length-reverse, length-clean, length-clean_least, clean-snoc, clean_nothing, clean_slash,
}
use kubechecks.Affected.{path_dir, from_slash}
use kubechecks.AppSets.{parent_matches, any_parent_matches}

from_slash-cases :
    (s : Bytes)
    → (from_slash s ≡ []) ⊎ ((t : Bytes) × (from_slash s ≡ 47 ∷ t) × (length t < length s))
unfolding from_slash
from_slash-cases [] = inl refl
from_slash-cases (b ∷ s) = elim (Bool-cases (b == 47)) [
  | inl slash ↦ inr (s, ground (arith, ==_iff b 47), omega arith)
  | inr other ↦ elim (from_slash-cases s) [
    | inl none_there ↦ inl (ground (arith, none_there))
    | inr (t, e, short) ↦ inr (t, ground (arith, e), omega (arith, short))
  ]
]

-- `path.Dir` is the root or the current directory, or shorter than its path.
abbrev IsRoot : Bytes → Type 0
IsRoot d = (d ≡ codes ".") ⊎ (d ≡ codes "/")

path_dir-cases : (d : Bytes) → IsRoot (path_dir d) ⊎ (length (path_dir d) < length d)
unfolding path_dir
path_dir-cases d = elim (from_slash-cases (reverse d)) [
  | inl no_slash ↦ inl (inl (ap (λ t. clean (reverse t)) no_slash ∙ clean_nothing))
  | inr ([], e, short) ↦ inl (inr (ap (λ t. clean (reverse t)) e ∙ clean_slash))
  | inr (c ∷ t, e, short) ↦ elim (List-cases (reverse (c ∷ t))) [
    | inl nothing ↦ absurd (ground (arith, length-reverse (c ∷ t)))
    | inr (x, xs, parts) ↦
        let whole : path_dir d ≡ clean (x ∷ xs) =
          ap (λ u. clean (reverse u)) e
          ∙ ap clean (reverse-cons 47 (c ∷ t) ∙ ap (λ u. u ++ 47 ∷ []) parts)
          ∙ clean-snoc x xs in
        let size : suc (length xs) ≡ suc (length t) =
          sym (ap length parts) ∙ length-reverse (c ∷ t) in
        inr (ground (arith, ap length whole, length-clean x xs, size, short, length-reverse d))
  ]
]

length-path_dir : (d : Bytes) → 1 ≤ length (path_dir d)
unfolding path_dir
length-path_dir d = length-clean_least (reverse (from_slash (reverse d)))

path_dir_here : path_dir (codes ".") ≡ codes "."
unfolding path_dir from_slash
path_dir_here = clean_nothing

path_dir_top : path_dir (codes "/") ≡ codes "/"
unfolding path_dir from_slash
path_dir_top = clean_slash

-- The directory some steps above.
abbrev pub up : ℕ → Bytes → Bytes
up zero d = d
up (suc k) d = up k (path_dir d)

path_dir_root : (d : Bytes) → IsRoot d → path_dir d ≡ d
path_dir_root d (inl e) = ap path_dir e ∙ path_dir_here ∙ sym e
path_dir_root d (inr e) = ap path_dir e ∙ path_dir_top ∙ sym e

up_fixed : (k : ℕ) (d : Bytes) → path_dir d ≡ d → up k d ≡ d
up_fixed zero d h = refl
up_fixed (suc k) d h = ap (up k) h ∙ up_fixed k d h

-- Where the loop stops, the directory is its own.
stopped :
    (d : Bytes)
    → (bytes_eq d (codes ".") || bytes_eq d (codes "/") || bytes_eq (path_dir d) d) ≡ true
    → path_dir d ≡ d
stopped d h = elim (Bool-cases (bytes_eq d (codes "."))) [
  | inl dot ↦ path_dir_root d (inl ((bytes_eq_iff d (codes ".")).0 dot))
  | inr not_dot ↦ elim (Bool-cases (bytes_eq d (codes "/"))) [
    | inl slash ↦ path_dir_root d (inr ((bytes_eq_iff d (codes "/")).0 slash))
    | inr not_slash ↦ (bytes_eq_iff (path_dir d) d).0 (ground arith)
  ]
]

module _ (glob_match : Bytes → Bytes → Bool) where
  above :
      (n : ℕ) (p d : Bytes)
      → parent_matches glob_match n p d ≡ true
      → (k : ℕ) × (glob_match p (up k d) ≡ true)
  unfolding parent_matches
  above zero p d h = (0, h)
  above (suc n) p d h = elim (Bool-cases (glob_match p d)) [
    | inl here ↦ (0, here)
    | inr later ↦ let (k, found) = above n p (path_dir d) (ground arith) in (suc k, found)
  ]

  found_here :
      (n : ℕ) (p d : Bytes) → glob_match p d ≡ true → parent_matches glob_match n p d ≡ true
  unfolding parent_matches
  found_here zero p d h = h
  found_here (suc n) p d h = ground arith

  found_above :
      (n : ℕ) (p d : Bytes) (k : ℕ)
      → 1 ≤ length d
      → length d ≤ n
      → glob_match p (up k d) ≡ true
      → parent_matches glob_match n p d ≡ true
  unfolding parent_matches
  found_above zero p d k some_byte enough h = absurd (omega arith)
  found_above (suc n) p d zero some_byte enough h = found_here (suc n) p d h
  found_above (suc n) p d (suc k) some_byte enough h =
      let stops = bytes_eq d (codes ".") || bytes_eq d (codes "/") || bytes_eq (path_dir d) d in
      elim (Bool-cases stops) [
        | inl stop ↦
            found_here (suc n) p d
              (subst (λ x. glob_match p x ≡ true) (up_fixed (suc k) d (stopped d stop)) h)
        | inr on ↦
            let further : parent_matches glob_match n p (path_dir d) ≡ true =
              elim (path_dir-cases d) [
                | inl root ↦ found_here n p (path_dir d) (
                    subst (λ x. glob_match p x ≡ true)
                      (up_fixed k (path_dir d) (path_dir_root (path_dir d) root)) h)
                | inr short ↦
                    found_above n p (path_dir d) k (length-path_dir d) (omega (arith, short)) h
              ] in
            ground (arith, on, further)
      ]

  -- A glob matches a parent directory of a file exactly if it matches the file's directory or one
  -- that `path.Dir` leads to from there in any number of steps: the fuel is enough for all of them.
  pub any_parent_matches_iff :
      (p file_path : Bytes)
      → (any_parent_matches glob_match p file_path ≡ true)
        ↔ ((k : ℕ) × (glob_match p (up k (path_dir file_path)) ≡ true))
  unfolding any_parent_matches
  any_parent_matches_iff p file_path =
      let dir = path_dir file_path in
      (
        above (length dir) p dir,
        (λ (k, h). found_above (length dir) p dir k (length-path_dir file_path) (omega arith) h),
      )
