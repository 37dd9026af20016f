-- ===== src/Events/Generated.antt =====
-- pkg/events/check.go and appset_spec_diff.go: `GenerateListOfAffectedApps` behind its matcher: what
-- the application sets generate replaces, adds and removes. What the generator answers for the pull
-- request's head and for the base is data, and so is the rendering of a diff; `none` is an error of
-- theirs. An application without a source makes `AddApp` panic, which is `none` here as well.
pub mod Replaced
use kubechecks.Common.{
  ℕ, Bytes, codes, Bool, true, false, ◌&&◌, ◌||◌, not, List, [], ◌∷◌, ◌++◌, Option, none, some,
  lookup, lookup-insert, insert, bytes_eq, bytes_eq_iff, bytes_instance, is_empty, if◌then◌else◌,
  ◌≡◌, refl, arith, ap, ◌∙◌, key-cases, Bool-cases, Option-cases, inl, inr,
}
use kubechecks.CommitState.{state_success}
use kubechecks.AppDir.{
  Application, Source, AppDirectory, new_app_directory, add_app, find_apps_based_on_change_list,
}
use kubechecks.Events.Check.{SpecFinding}

-- What the generator makes of an application set.
pub record Generation : Type 0 where
  pub set_name : Bytes
  pub head : Option (List Application)
  pub base : Option (List Application)

pub record Affected : Type 0 where
  pub applications : List Application
  pub findings : List SpecFinding

-- `indexApps`
unfoldable pub index_apps :
    List Application → List (Bytes × Application) → List (Bytes × Application)
index_apps [] m = m
index_apps (a ∷ apps) m = index_apps apps (insert a.name a m)

-- A set of names.
unfoldable pub name_map : List Application → List (Bytes × Bool)
name_map [] = []
name_map (a ∷ apps) = insert a.name true (name_map apps)

abbrev pub in_names : Bytes → List (Bytes × Bool) → Bool
in_names n m = elim (lookup n m) [ none ↦ false | some b ↦ true ]

-- `removedNames`: the applications at the base that the head no longer has.
unfoldable pub removed_names : List (Bytes × Bool) → List Application → List (Bytes × Bool)
removed_names generated [] = []
removed_names generated (a ∷ apps) =
    let rest = removed_names generated apps in
    if in_names a.name generated then rest else insert a.name true rest

-- The loop that leaves out what is generated or removed.
unfoldable pub keep_others :
    List (Bytes × Bool) → List (Bytes × Bool) → List Application → List Application
keep_others generated removed [] = []
keep_others generated removed (a ∷ apps) =
    let rest = keep_others generated removed apps in
    if in_names a.name generated || in_names a.name removed then rest else a ∷ rest

-- `unified_app_diff` renders the diff of two applications, where `none` is none at all.
module _ (get_source : Application → Source) (has_multiple_sources : Application → Bool)
    (unified_app_diff : Option Application → Option Application → Option Bytes) where
  unfoldable pub add_apps : AppDirectory → List Application → Option AppDirectory
  add_apps d [] = some d
  add_apps d (a ∷ apps) = elim (add_app get_source has_multiple_sources d a) [
    | none ↦ none
    | some d' ↦ add_apps d' apps
  ]

  unfoldable pub filter_apps_by_change_list :
      List Application → List Bytes → Bytes → Option (List Application)
  unfolding add_apps
  filter_apps_by_change_list apps changes target_branch = elim (add_apps new_app_directory apps) [
    | none ↦ none
    | some d ↦
        some
          (find_apps_based_on_change_list get_source has_multiple_sources d changes target_branch)
  ]

  unfoldable pub spec_finding : Bytes → Bytes → Bytes → Bytes → SpecFinding
  spec_finding set_name name action body = record {
    app_name = name;
    app_set_name = set_name;
    action = action;
    body = body;
    state = state_success;
  }

  -- The loop over the applications of the head.
  unfoldable pub head_findings :
      Bytes → List (Bytes × Application) → List (Bytes × Application) → List SpecFinding
  unfolding spec_finding
  head_findings set_name base_by_name [] = []
  head_findings set_name base_by_name ((name, head) ∷ heads) =
      let rest = head_findings set_name base_by_name heads in
      elim (lookup name base_by_name) [
        | none ↦ elim (unified_app_diff none (some head)) [
          | none ↦ rest
          | some body ↦ spec_finding set_name name (codes "added by AppSet") body ∷ rest
        ]
        | some base ↦ elim (unified_app_diff (some base) (some head)) [
          | none ↦ rest
          | some body ↦
              if is_empty body
              then rest
              else spec_finding set_name name (codes "modified by AppSet") body ∷ rest
        ]
      ]

  -- The loop over those of the base.
  unfoldable pub base_findings :
      Bytes → List (Bytes × Application) → List (Bytes × Application) → List SpecFinding
  unfolding spec_finding
  base_findings set_name head_by_name [] = []
  base_findings set_name head_by_name ((name, base) ∷ bases) =
      let rest = base_findings set_name head_by_name bases in
      elim (lookup name head_by_name) [
        | some head ↦ rest
        | none ↦ elim (unified_app_diff (some base) none) [
          | none ↦ rest
          | some body ↦ spec_finding set_name name (codes "removed by AppSet") body ∷ rest
        ]
      ]

  unfoldable pub compute_app_set_spec_diff :
      Bytes → List Application → List Application → List SpecFinding
  unfolding head_findings base_findings index_apps
  compute_app_set_spec_diff set_name head_apps base_apps =
      let head_by_name = index_apps head_apps [] in
      let base_by_name = index_apps base_apps [] in
      head_findings set_name base_by_name head_by_name
      ++ base_findings set_name head_by_name base_by_name

  unfoldable pub app_set_spec_diff_for_change :
      Bytes → List Application → List Application → List Bytes → Bytes → Option (List SpecFinding)
  unfolding filter_apps_by_change_list compute_app_set_spec_diff
  app_set_spec_diff_for_change set_name head_apps base_apps changes target_branch =
      elim (filter_apps_by_change_list head_apps changes target_branch) [
        | none ↦ none
        | some heads ↦ elim (filter_apps_by_change_list base_apps changes target_branch) [
          | none ↦ none
          | some bases ↦ some (compute_app_set_spec_diff set_name heads bases)
        ]
      ]

  -- The findings and the removed names of a set, where the base could be generated.
  unfoldable pub compare_base :
      Generation
      → List Application
      → List Bytes
      → Bytes
      → Option (List SpecFinding × List (Bytes × Bool))
  unfolding app_set_spec_diff_for_change removed_names name_map
  compare_base g head_apps changes target_branch = elim g.base [
    | none ↦ some ([], [])
    | some base_apps ↦
        elim (app_set_spec_diff_for_change g.set_name head_apps base_apps changes target_branch) [
          | none ↦ none
          | some fs ↦ some (fs, removed_names (name_map head_apps) base_apps)
        ]
  ]

  -- One round of the loop over the application sets.
  unfoldable pub generate_set : Affected → Generation → List Bytes → Bytes → Option Affected
  unfolding compare_base keep_others
  generate_set a g changes target_branch = elim g.head [
    | none ↦ some a
    | some head_apps ↦ elim (compare_base g head_apps changes target_branch) [
      | none ↦ none
      | some (fs, removed) ↦ elim (filter_apps_by_change_list head_apps changes target_branch) [
        | none ↦ none
        | some queued ↦ some (record {
          applications = keep_others (name_map head_apps) removed a.applications ++ queued;
          findings = a.findings ++ fs;
        })
      ]
    ]
  ]

  -- `GenerateListOfAffectedApps`, from what the matcher found.
  unfoldable pub generate_list : Affected → List Generation → List Bytes → Bytes → Option Affected
  unfolding generate_set
  generate_list a [] changes target_branch = some a
  generate_list a (g ∷ gs) changes target_branch = elim (generate_set a g changes target_branch) [
    | none ↦ none
    | some a' ↦ generate_list a' gs changes target_branch
  ]
