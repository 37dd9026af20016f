-- ===== src/Affected.antt =====
-- pkg/affected_apps: which applications the configuration of a repository, and several matchers
-- together, name for a change list (config_matcher.go, matcher.go and multi_matcher.go). What Argo CD
-- answers is data; the order of the loops over maps is that of the lists.
pub mod Triggered
pub mod Merging
use kubechecks.Common.{
  ℕ, suc, Bytes, codes, Bool, true, false, ◌&&◌, ◌||◌, not, List, [], ◌∷◌, ◌++◌, reverse, Option,
  none, some, lookup, insert, bytes_eq, bytes_instance, has_prefix, is_empty, if◌then◌else◌, ◌==◌,
  inl, inr, ◌⊎◌,
}
use kubechecks.AppDir.{Source, Application, clean}

-- repo_config: the configuration of applications and application sets.
pub record AppConfig : Type 0 where
  pub name : Bytes
  pub cluster : Bytes
  pub path : Bytes
  pub additional_paths : List Bytes
  pub enable_conf_test : Bool
  pub enable_kube_conform : Bool
  pub enable_kube_pug : Bool

pub record AppSetConfig : Type 0 where
  pub name : Bytes
  pub paths : List Bytes
  pub enable_conf_test : Bool
  pub enable_kube_conform : Bool
  pub enable_kube_pug : Bool

pub record Config : Type 0 where
  pub applications : List AppConfig
  pub application_sets : List AppSetConfig

-- `AffectedItems`; of an application set only the name is read.
pub record ApplicationSet : Type 0 where
  pub name : Bytes

pub record AffectedItems : Type 0 where
  pub applications : List Application
  pub application_sets : List ApplicationSet

-- `var total AffectedItems`
abbrev pub no_items : AffectedItems
no_items = record { applications = []; application_sets = [] }

-- What ends a matcher early: a request to Argo CD that fails, or the read of `Source.Path` of an
-- application without a single source, which panics.
pub data Failure : Type 0 where
  request_failed : Failure
  nil_source : Failure

-- `strings.HasSuffix`
unfoldable pub has_suffix : Bytes → Bytes → Bool
has_suffix s p = has_prefix (reverse s) (reverse p)

-- What a reversed path has from its last slash on.
unfoldable pub from_slash : Bytes → Bytes
from_slash [] = []
from_slash (b ∷ s) = if b == b'/' then b ∷ s else from_slash s

-- `path.Dir`
unfoldable pub path_dir : Bytes → Bytes
unfolding from_slash
path_dir p = clean (reverse (from_slash (reverse p)))

unfoldable pub dir_map : List Bytes → List (Bytes × Bool) → List (Bytes × Bool)
unfolding path_dir
dir_map [] dirs = dirs
dir_map (file ∷ files) dirs = dir_map files (insert (path_dir file) true dirs)

abbrev pub keys {ℓ} : {A : Type ℓ} → List (Bytes × A) → List Bytes
keys [] = []
keys ((k, v) ∷ m) = k ∷ keys m

abbrev pub values {ℓ} : {A : Type ℓ} → List (Bytes × A) → List A
values [] = []
values ((k, v) ∷ m) = v ∷ values m

unfoldable pub modified_dirs : List Bytes → List Bytes
unfolding dir_map
modified_dirs change_list = keys (dir_map change_list [])

unfoldable pub dir_match_for_app : Bytes → Bytes → Bool
unfolding has_suffix
dir_match_for_app change_dir app_dir =
    let app = clean app_dir in
    let change = clean change_dir in
    has_suffix change app || (bytes_eq change (codes ".") && bytes_eq app (codes "/"))

unfoldable pub dir_match_for_app_set : Bytes → Bytes → Bool
unfolding has_suffix
dir_match_for_app_set change_dir app_set_dir =
    let set = clean app_set_dir in
    let change = clean change_dir in
    has_suffix change set
    || has_prefix change set
    || (bytes_eq change (codes ".") && bytes_eq set (codes "/"))

-- An application is appended once for each additional path that matches.
unfoldable pub additional_hits : Bytes → AppConfig → List Bytes → List AppConfig
additional_hits dir app [] = []
additional_hits dir app (p ∷ ps) =
    let rest = additional_hits dir app ps in if dir_match_for_app dir p then app ∷ rest else rest

unfoldable pub applications_for_dir : Bytes → List AppConfig → List AppConfig
unfolding additional_hits
applications_for_dir dir [] = []
applications_for_dir dir (app ∷ apps) =
    let rest = applications_for_dir dir apps in
    if dir_match_for_app dir app.path
    then app ∷ rest
    else additional_hits dir app app.additional_paths ++ rest

unfoldable pub any_path : Bytes → List Bytes → Bool
any_path dir [] = false
any_path dir (p ∷ ps) = dir_match_for_app_set dir p || any_path dir ps

unfoldable pub sets_for_dir : Bytes → List AppSetConfig → List AppSetConfig
unfolding any_path
sets_for_dir dir [] = []
sets_for_dir dir (s ∷ ss) =
    let rest = sets_for_dir dir ss in if any_path dir s.paths then s ∷ rest else rest

-- `by_appset` is `GetApplicationsByAppset`, `none` an error, and `destination_name` reads
-- `Spec.Destination.Name`.
module _ (by_appset : Bytes → Option (List Application))
    (destination_name : Application → Bytes) where
  -- The applications of one set, in front of those that are found after it.
  unfoldable pub config_apps : AppSetConfig → List Application → Failure ⊎ List AppConfig
  config_apps s [] = inr []
  config_apps s (app ∷ apps) =
      let rest = config_apps s apps in
      elim app.source [
        | none ↦ inl nil_source
        | some source ↦ elim rest [
          | inl err ↦ inl err
          | inr cs ↦ inr (
              record {
                name = app.name;
                cluster = destination_name app;
                path = source.path;
                additional_paths = [];
                enable_conf_test = s.enable_conf_test;
                enable_kube_conform = s.enable_kube_conform;
                enable_kube_pug = s.enable_kube_pug;
              }
              ∷ cs)
        ]
      ]

  unfoldable pub apps_of_sets : List AppSetConfig → Failure ⊎ List AppConfig
  unfolding config_apps
  apps_of_sets [] = inr []
  apps_of_sets (s ∷ ss) =
      let rest = apps_of_sets ss in
      elim (by_appset s.name) [
        | none ↦ inl request_failed
        | some apps ↦ elim (config_apps s apps) [
          | inl err ↦ inl err
          | inr cs ↦ elim rest [ inl err ↦ inl err | inr more ↦ inr (cs ++ more) ]
        ]
      ]

  -- The applications and the application sets that a changed directory triggers.
  unfoldable pub triggered_by : Config → Bytes → Failure ⊎ (List AppConfig × List AppSetConfig)
  unfolding applications_for_dir sets_for_dir apps_of_sets
  triggered_by cfg dir =
      let apps = applications_for_dir dir cfg.applications in
      let sets = sets_for_dir dir cfg.application_sets in
      if is_empty apps
      then (elim (apps_of_sets sets) [ inl err ↦ inl err | inr cs ↦ inr (cs, sets) ])
      else inr (apps, [])

  unfoldable pub put_apps : List AppConfig → List (Bytes × AppConfig) → List (Bytes × AppConfig)
  put_apps [] m = m
  put_apps (app ∷ apps) m = put_apps apps (insert app.name app m)

  unfoldable pub put_sets :
      List AppSetConfig → List (Bytes × AppSetConfig) → List (Bytes × AppSetConfig)
  put_sets [] m = m
  put_sets (s ∷ ss) m = put_sets ss (insert s.name s m)

  -- The loop of `triggeredApps`.
  unfoldable pub trigger_dirs :
      Config
      → List Bytes
      → List (Bytes × AppConfig)
      → List (Bytes × AppSetConfig)
      → Failure ⊎ (List (Bytes × AppConfig) × List (Bytes × AppSetConfig))
  unfolding triggered_by put_apps put_sets
  trigger_dirs cfg [] apps sets = inr (apps, sets)
  trigger_dirs cfg (dir ∷ dirs) apps sets = elim (triggered_by cfg dir) [
    | inl err ↦ inl err
    | inr (more, more_sets) ↦ trigger_dirs cfg dirs (put_apps more apps) (put_sets more_sets sets)
  ]

  unfoldable pub triggered_apps :
      Config → List Bytes → Failure ⊎ (List AppConfig × List AppSetConfig)
  unfolding trigger_dirs modified_dirs
  triggered_apps cfg modified_files = elim (trigger_dirs cfg (modified_dirs modified_files) [] []) [
    | inl err ↦ inl err
    | inr (apps, sets) ↦ inr (values apps, values sets)
  ]

  unfoldable pub path_map : List AppConfig → List (Bytes × Bytes) → List (Bytes × Bytes)
  path_map [] m = m
  path_map (app ∷ apps) m = path_map apps (insert app.name app.path m)

  abbrev pub set_names : List AppSetConfig → List ApplicationSet
  set_names [] = []
  set_names (s ∷ ss) = record { name = s.name } ∷ set_names ss

  unfoldable pub known_in : List (Bytes × Bytes) → List Application → List Application
  known_in m [] = []
  known_in m (app ∷ apps) =
      let rest = known_in m apps in elim (lookup app.name m) [ none ↦ rest | some p ↦ app ∷ rest ]

  -- `AffectedApps` of the `ConfigMatcher`; the last argument is what `GetApplications` returns.
  unfoldable pub affected_by_config :
      Config → List Bytes → Option (List Application) → Failure ⊎ AffectedItems
  unfolding triggered_apps path_map known_in
  affected_by_config cfg change_list all_apps = elim (triggered_apps cfg change_list) [
    | inl err ↦ inl err
    | inr (apps, sets) ↦ elim all_apps [
      | none ↦ inl request_failed
      | some items ↦ inr (record {
        applications = known_in (path_map apps []) items;
        application_sets = set_names sets;
      })
    ]
  ]

-- `appNameSet`, and the loop of `Union` behind it.
unfoldable pub name_set {ℓ} : {A : Type ℓ} → (A → Bytes) → List A → List (Bytes × Bool)
name_set name_of [] = []
name_set name_of (a ∷ rest) = insert (name_of a) true (name_set name_of rest)

unfoldable pub append_new {ℓ} :
    {A : Type ℓ} → (A → Bytes) → List (Bytes × Bool) → List A → List A → List A
append_new name_of set kept [] = kept
append_new name_of set kept (a ∷ rest) = elim (lookup (name_of a) set) [
  | some b ↦ append_new name_of set kept rest
  | none ↦ append_new name_of set (kept ++ a ∷ []) rest
]

unfoldable pub merge_items {ℓ} : {A : Type ℓ} → (A → Bytes) → List A → List A → List A
unfolding name_set append_new
merge_items name_of own others = append_new name_of (name_set name_of own) own others

-- `AffectedItems.Union`
unfoldable pub union_items : AffectedItems → AffectedItems → AffectedItems
unfolding merge_items
union_items ai other = record {
  applications = merge_items (λ a. a.name) ai.applications other.applications;
  application_sets = merge_items (λ a. a.name) ai.application_sets other.application_sets;
}

-- `AffectedApps` of the `MultiMatcher`, for what its matchers do: the items so far, with the number
-- of the matcher whose error is returned; `none` is the panic of a matcher, which nothing catches.
unfoldable pub affected_by_all :
    AffectedItems → ℕ → List (Failure ⊎ AffectedItems) → Option (AffectedItems × Option ℕ)
unfolding union_items
affected_by_all total index [] = some (total, none)
affected_by_all total index (inl request_failed ∷ rest) = some (total, some index)
affected_by_all total index (inl nil_source ∷ rest) = none
affected_by_all total index (inr items ∷ rest) =
    affected_by_all (union_items total items) (suc index) rest
