-- ===== src/Removals/Owned.antt =====
-- pkg/checks/diff/removals.go: what the removals that `applyFieldRemovals` gathers have in common.
use kubechecks.Common.{
  Bytes, Bool, false, List, [], ◌∷◌, ◌++◌, Option, none, some, ◌≡◌, refl, lookup, bytes_instance,
  arith, All, All-append, Bool-cases, Option-cases, List-cases, inl, inr, ◌⊎◌, subst, sym, ap,
}
use kubechecks.Removals.{Value, FieldPath, PathElement, has_path, removal_point}
use kubechecks.Removals.Points.{removal_point_shortest}
use kubechecks.Removals.Plan.{
  Set, OwnedSet, Gathered, owners_of, is_argo_cd_residue, owned_under, removal_of, visit, visit_all,
  visit_residue, visit_residues, visit_owners, visit_applied, gather,
}

module _ (equals : Value → Value → Bool) (same_element : PathElement → PathElement → Bool)
    (path_string : FieldPath → Bytes) (target : Value) (applied : Option Set)
    (others : List OwnedSet) where
  -- The target lacks the path, and no other manager owns a path under it, or at least none owns
  -- the path itself.
  unfoldable pub IsDue : FieldPath → Type 0
  IsDue r =
      (has_path equals target r ≡ false)
      × ((owned_under equals same_element path_string others r ≡ false) ⊎ (owners_of others r ≡ []))

  removal_of-IsDue :
      (p : FieldPath)
      → has_path equals target p ≡ false
      → owners_of others p ≡ []
      → IsDue (removal_of equals same_element path_string target others p)
  unfolding IsDue removal_of
  removal_of-IsDue p missing free =
      let (k, a, b, e, f, g) = removal_point_shortest equals target p missing in
      elim (Bool-cases
        (owned_under equals same_element path_string others (removal_point equals target p))) [
          | inl owned ↦ rw owned (missing, inr free)
          | inr clear ↦ rw clear (cc (ap (has_path equals target) e, f), inl clear)
        ]

  removals-visit :
      (g : Gathered) (p : FieldPath)
      → ((visit equals same_element path_string target others g p).removals ≡ g.removals)
        ⊎ ((has_path equals target p ≡ false)
            × (owners_of others p ≡ [])
            × ((visit equals same_element path_string target others g p).removals
                ≡ g.removals ++ removal_of equals same_element path_string target others p ∷ []))
  unfolding visit
  removals-visit g p = elim (Bool-cases (has_path equals target p)) [
    | inl there ↦ inl (rw (there, visit) refl)
    | inr missing ↦ elim (List-cases (owners_of others p)) [
      | inr (o, os, e) ↦ inl (ground arith)
      | inl free ↦
          elim (Option-cases (
            lookup (path_string (removal_of equals same_element path_string target others p))
              g.seen)) [
                | inl e ↦ inr (missing, free, ground arith)
                | inr (b, e) ↦ inl (ground arith)
              ]
    ]
  ]

  visit-IsDue :
      (g : Gathered) (p : FieldPath)
      → All IsDue g.removals
      → All IsDue (visit equals same_element path_string target others g p).removals
  visit-IsDue g p h = elim (removals-visit g p) [
    | inl same ↦ subst (All IsDue) (sym same) h
    | inr (missing, free, more) ↦
        subst (All IsDue) (sym more)
          (All-append IsDue g.removals _ h (removal_of-IsDue p missing free, tt))
  ]

  visit_all-IsDue :
      (ps : List FieldPath) (g : Gathered)
      → All IsDue g.removals
      → All IsDue (visit_all equals same_element path_string target others g ps).removals
  unfolding visit_all
  visit_all-IsDue [] g h = h
  visit_all-IsDue (p ∷ ps) g h = visit_all-IsDue ps _ (visit-IsDue g p h)

  removals-visit_residue :
      (g : Gathered) (p : FieldPath)
      → (visit_residue equals same_element path_string target applied others g p).removals
        ≡ g.removals
  unfolding visit_residue
  removals-visit_residue g p = ground arith

  removals-visit_residues :
      (ps : List FieldPath) (g : Gathered)
      → (visit_residues equals same_element path_string target applied others g ps).removals
        ≡ g.removals
  unfolding visit_residues
  removals-visit_residues [] g = refl
  removals-visit_residues (p ∷ ps) g = cc (removals-visit_residues ps _, removals-visit_residue g p)

  removals-visit_owners :
      (os : List OwnedSet) (g : Gathered)
      → (visit_owners equals same_element path_string target applied others g os).removals
        ≡ g.removals
  unfolding visit_owners
  removals-visit_owners [] g = refl
  removals-visit_owners (o ∷ os) g = elim (Bool-cases (is_argo_cd_residue o.owner)) [
    | inl e ↦ ground (
      arith,
      removals-visit_owners os
          (visit_residues equals same_element path_string target applied others g o.set.members),
      removals-visit_residues o.set.members g,
    )
    | inr e ↦ ground (arith, removals-visit_owners os g)
  ]

  visit_applied-IsDue :
      (s : Option Set)
      → All IsDue (visit_applied equals same_element path_string target s others).removals
  unfolding visit_applied
  visit_applied-IsDue none = tt
  visit_applied-IsDue (some s) = visit_all-IsDue s.members _ tt

  -- Every path that is gathered for removal is one that the target lacks, and either no other
  -- manager owns a path under it, or no other manager owns the path itself.
  pub gather-IsDue :
      All IsDue (gather equals same_element path_string target applied others).removals
  unfolding gather
  gather-IsDue =
      subst (All IsDue) (sym (removals-visit_owners others _)) (visit_applied-IsDue applied)
