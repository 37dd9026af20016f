-- ===== src/Events/Generated/Replaced.antt =====
-- pkg/events/check.go: what the applications that a set generates replace.
use kubechecks.Common.{
  Bytes, Bool, true, ◌&&◌, ◌||◌, not, List, [], ◌∷◌, ◌++◌, Option, some, lookup, lookup-insert,
  insert, bytes_eq, bytes_instance, ◌≡◌, refl, arith, ap, ◌∙◌, sym, key-cases, Option-cases, inl,
  inr,
}
use kubechecks.AppDir.{Application, Source}
use kubechecks.Affected.Triggered.{has_app}
use kubechecks.Events.Generated.{
  Generation, Affected, name_map, in_names, removed_names, keep_others, filter_apps_by_change_list,
  compare_base, app_set_spec_diff_for_change, generate_set,
}

has_app-append :
    (n : Bytes) (xs ys : List Application) → has_app n (xs ++ ys) ≡ (has_app n xs || has_app n ys)
has_app-append n [] ys = refl
has_app-append n (x ∷ xs) ys = ground (arith, has_app-append n xs ys)

in_names-insert :
    (n k : Bytes) (m : List (Bytes × Bool))
    → in_names n (insert k true m) ≡ (bytes_eq k n || in_names n m)
in_names-insert n k m = ground (arith, lookup-insert k n true m)

in_names-name_map :
    (n : Bytes) (apps : List Application) → in_names n (name_map apps) ≡ has_app n apps
unfolding name_map lookup
in_names-name_map n [] = refl
in_names-name_map n (a ∷ apps) =
    in_names-insert n a.name (name_map apps)
    ∙ ap (λ t. bytes_eq a.name n || t) (in_names-name_map n apps)

-- Where a name is that of the application, so is the answer of a map.
in_names-same :
    (n k : Bytes) (m : List (Bytes × Bool))
    → (bytes_eq k n && in_names k m) ≡ (bytes_eq k n && in_names n m)
in_names-same n k m = elim (key-cases k n) [
  | inl (same, test) ↦ ground (arith, ap (λ t. in_names t m) same)
  | inr (differ, test) ↦ ground arith
]

in_names-removed_names :
    (n : Bytes) (generated : List (Bytes × Bool)) (apps : List Application)
    → in_names n (removed_names generated apps) ≡ (has_app n apps && not (in_names n generated))
unfolding removed_names lookup
in_names-removed_names n generated [] = refl
in_names-removed_names n generated (a ∷ apps) = ground (
  arith,
  in_names-removed_names n generated apps,
  in_names-insert n a.name (removed_names generated apps),
  in_names-same n a.name generated,
)

has_app-keep_others :
    (n : Bytes) (generated removed : List (Bytes × Bool)) (apps : List Application)
    → has_app n (keep_others generated removed apps)
      ≡ (has_app n apps && not (in_names n generated || in_names n removed))
unfolding keep_others
has_app-keep_others n generated removed [] = ground arith
has_app-keep_others n generated removed (a ∷ apps) = ground (
  arith,
  has_app-keep_others n generated removed apps,
  in_names-same n a.name generated,
  in_names-same n a.name removed,
)

module _ (get_source : Application → Source) (has_multiple_sources : Application → Bool)
    (unified_app_diff : Option Application → Option Application → Option Bytes) where
  -- Behind a set that can be generated for the head and for the base, an application that either of
  -- them has is in the list exactly if the head's is affected by the changed files; any other one is
  -- in it exactly if it was before.
  pub has_app-generate_set :
      (a out : Affected) (g : Generation) (heads bases queued : List Application)
      (changes : List Bytes) (target_branch n : Bytes)
      → g.head ≡ some heads
      → g.base ≡ some bases
      → filter_apps_by_change_list get_source has_multiple_sources unified_app_diff heads changes
          target_branch
        ≡ some queued
      → generate_set get_source has_multiple_sources unified_app_diff a g changes target_branch
        ≡ some out
      → has_app n out.applications ≡ (
          (has_app n a.applications && not (has_app n heads || has_app n bases))
          || has_app n queued)
  unfolding generate_set compare_base
  has_app-generate_set a out g heads bases queued changes target_branch n h b f e =
      elim (Option-cases (
        app_set_spec_diff_for_change get_source has_multiple_sources unified_app_diff g.set_name
          heads bases changes target_branch)) [
            | inl none_found ↦ absurd (ground arith)
            | inr (fs, found) ↦
                let removed = removed_names (name_map heads) bases in
                let kept = keep_others (name_map heads) removed a.applications in
                let made : Affected = record {
                  applications = kept ++ queued;
                  findings = a.findings ++ fs;
                } in
                let same : made ≡ out = ground arith in
                sym (ap (λ r. has_app n r.applications) same)
                ∙ ground (
                  arith,
                  has_app-append n kept queued,
                  has_app-keep_others n (name_map heads) removed a.applications,
                  in_names-name_map n heads,
                  in_names-removed_names n (name_map heads) bases,
                )
          ]
