-- ===== src/AppDir/Selecting.antt =====
-- pkg/appdir/app_directory.go: which applications are selected from a set of names.
use kubechecks.Common.{
  Bytes, Bool, refl, none, ◌++◌, insert, lookup-insert, Option-cases, Bool-cases, true, List, [],
  ◌∷◌, some, ◌≡◌, ap, ◌∙◌, lookup, bytes_instance, key-cases, arith, inl, inr,
}
use kubechecks.AppDir.{
  Source, Application, AppDirectory, merge_maps, take_first, select, should_include,
}
use kubechecks.AppDir.Matching.{in_set}

pub lookup-merge_maps :
    (key : Bytes) (first second : List (Bytes × Application))
    → lookup key (merge_maps take_first first second)
      ≡ elim (lookup key first) [ some app ↦ some app | none ↦ lookup key second ]
unfolding merge_maps take_first lookup
lookup-merge_maps key first [] = ground arith
lookup-merge_maps key first ((k, app) ∷ second) = elim (key-cases k key) [
  | inl (same, hit) ↦ elim (Option-cases (lookup k first)) [
    | inl e ↦ ground (
      arith,
      lookup-merge_maps key (insert k app first) second,
      lookup-insert k key app first,
      ap (λ n. lookup n first) same,
    )
    | inr (old, e) ↦ ground (
      arith,
      lookup-merge_maps key (insert k old first) second,
      lookup-insert k key old first,
      ap (λ n. lookup n first) same,
    )
  ]
  | inr (differ, missed) ↦ elim (Option-cases (lookup k first)) [
    | inl e ↦
        ground
          (arith, lookup-merge_maps key (insert k app first) second, lookup-insert k key app first)
    | inr (old, e) ↦
        ground
          (arith, lookup-merge_maps key (insert k old first) second, lookup-insert k key old first)
  ]
]

-- The application stands in the list.
abbrev pub Lists : Application → List Application → Type 0
Lists app apps =
    (before : List Application) × (after : List Application) × (apps ≡ before ++ app ∷ after)

Lists-cons :
    (app other : Application) (apps : List Application) → Lists app apps → Lists app (other ∷ apps)
Lists-cons app other apps (before, after, e) = (other ∷ before, after, ap (λ l. other ∷ l) e)

-- What is in the set, known and meant for the branch is selected.
pub Lists-select :
    (get_source : Application → Source) (has_multiple_sources : Application → Bool)
    (d : AppDirectory) (target_branch : Bytes) (app : Application) (set : List (Bytes × Bool))
    → lookup app.name d.apps_map ≡ some app
    → should_include get_source has_multiple_sources app target_branch ≡ true
    → in_set app.name set ≡ true
    → Lists app (select get_source has_multiple_sources d target_branch set)
unfolding select lookup
Lists-select get_source has_multiple_sources d target_branch app [] has fits e =
    absurd (ground arith)
Lists-select get_source has_multiple_sources d target_branch app ((name, b) ∷ set) has fits e =
    elim (key-cases name app.name) [
      | inl (same, hit) ↦ (
        [],
        select get_source has_multiple_sources d target_branch set,
        rw (select, ap (λ n. lookup n d.apps_map) same ∙ has, fits) refl,
      )
      | inr (differ, missed) ↦
          let rest =
            Lists-select get_source has_multiple_sources d target_branch app set has fits
              (ground (arith, missed, e)) in
          elim (Option-cases (lookup name d.apps_map)) [
            | inl n ↦ rw (select, n) rest
            | inr (other, o) ↦
                elim (Bool-cases
                  (should_include get_source has_multiple_sources other target_branch)) [
                    | inl kept ↦ rw (select, o, kept) (Lists-cons app other _ rest)
                    | inr dropped ↦ rw (select, o, dropped) rest
                  ]
          ]
    ]
