-- ===== src/AppSets.antt =====
-- pkg/appdir/appset_directory.go: which application sets a change of files affects. A set's
-- template is read through Argo CD's `GetSource`, whose result is a field of it; the changed files
-- that hold an application set themselves come as they are parsed, and doublestar's matching of globs
-- is a parameter. Maps are association lists, and the order of the loops over them is their order.
pub mod Copies
pub mod Undoing
pub mod Finding
pub mod Parents
use kubechecks.Common.{
  ℕ, zero, suc, Bytes, codes, Bool, true, false, ◌&&◌, ◌||◌, not, List, [], ◌∷◌, ◌++◌, Option, none,
  some, lookup, insert, delete, bytes_eq, bytes_instance, length, is_empty, if◌then◌else◌,
}
use kubechecks.RepoUrl.{trim_prefix}
use kubechecks.AppDir.{
  Source, names_at, remove_from_slice, join_two, clean, merge_maps, merge_lists, take_first,
}
use kubechecks.Affected.{path_dir}

-- An item of a Git generator's directories or files.
pub record GitPath : Type 0 where
  pub path : Bytes
  pub exclude : Bool

pub record GitGenerator : Type 0 where
  pub directories : List GitPath
  pub files : List GitPath

-- `ApplicationSetGenerator`; the lists hold the Git generators of the nested ones.
pub record Generator : Type 0 where
  pub git : Option GitGenerator
  pub matrix : List (Option GitGenerator)
  pub merge : List (Option GitGenerator)

pub record AppSet : Type 0 where
  pub name : Bytes
  pub source : Source
  pub generators : List Generator

pub record AppSetDirectory : Type 0 where
  pub app_set_dirs : List (Bytes × List Bytes)
  pub app_set_files : List (Bytes × List Bytes)
  pub app_sets_map : List (Bytes × AppSet)
  pub app_set_dir_patterns : List (Bytes × List Bytes)
  pub app_set_file_patterns : List (Bytes × List Bytes)

unfoldable pub new_app_set_directory : AppSetDirectory
new_app_set_directory = record {
  app_set_dirs = [];
  app_set_files = [];
  app_sets_map = [];
  app_set_dir_patterns = [];
  app_set_file_patterns = [];
}

-- `m[key] = append(m[key], name)` at each of the keys.
unfoldable pub append_all :
    Bytes → List Bytes → List (Bytes × List Bytes) → List (Bytes × List Bytes)
append_all name [] m = m
append_all name (key ∷ ks) m = append_all name ks (insert key (names_at key m ++ name ∷ []) m)

-- `m[key] = removeFromSlice(m[key], name)` at each of the keys.
unfoldable pub drop_all : Bytes → List Bytes → List (Bytes × List Bytes) → List (Bytes × List Bytes)
drop_all name [] m = m
drop_all name (key ∷ ks) m =
    drop_all name ks (insert key (remove_from_slice (names_at key m) name) m)

-- The paths that `registerGitGen` does not skip.
unfoldable pub registered : List GitPath → List Bytes
registered [] = []
registered (p ∷ ps) =
    let rest = registered ps in if p.exclude || is_empty p.path then rest else p.path ∷ rest

-- The paths that `unregisterGitGen` does not skip.
unfoldable pub unregistered : List GitPath → List Bytes
unregistered [] = []
unregistered (p ∷ ps) =
    let rest = unregistered ps in if is_empty p.path then rest else p.path ∷ rest

unfoldable pub register_git_gen : AppSetDirectory → Bytes → Option GitGenerator → AppSetDirectory
unfolding append_all registered
register_git_gen d name none = d
register_git_gen d name (some g) = record d {
  app_set_dir_patterns = append_all name (registered g.directories) d.app_set_dir_patterns;
  app_set_file_patterns = append_all name (registered g.files) d.app_set_file_patterns;
}

unfoldable pub unregister_git_gen : AppSetDirectory → Bytes → Option GitGenerator → AppSetDirectory
unfolding drop_all unregistered
unregister_git_gen d name none = d
unregister_git_gen d name (some g) = record d {
  app_set_dir_patterns = drop_all name (unregistered g.directories) d.app_set_dir_patterns;
  app_set_file_patterns = drop_all name (unregistered g.files) d.app_set_file_patterns;
}

-- The Git generators in the order in which the loops come to them.
unfoldable pub git_generators : List Generator → List (Option GitGenerator)
git_generators [] = []
git_generators (gen ∷ gens) = gen.git ∷ (gen.matrix ++ (gen.merge ++ git_generators gens))

unfoldable pub register_all : AppSetDirectory → Bytes → List (Option GitGenerator) → AppSetDirectory
unfolding register_git_gen
register_all d name [] = d
register_all d name (g ∷ gs) = register_all (register_git_gen d name g) name gs

unfoldable pub unregister_all :
    AppSetDirectory → Bytes → List (Option GitGenerator) → AppSetDirectory
unfolding unregister_git_gen
unregister_all d name [] = d
unregister_all d name (g ∷ gs) = unregister_all (unregister_git_gen d name g) name gs

-- `AddAppSet`
unfoldable pub add_app_set : AppSetDirectory → AppSet → AppSetDirectory
unfolding append_all
add_app_set d app = elim (lookup app.name d.app_sets_map) [
  | some old ↦ d
  | none ↦ record d {
    app_sets_map = insert app.name app d.app_sets_map;
    app_set_dirs = append_all app.name (app.source.path ∷ []) d.app_set_dirs;
  }
]

-- The files of the chart, relative to the source.
unfoldable pub joined : Bytes → List Bytes → List Bytes
joined base [] = []
joined base (f ∷ fs) = join_two base f ∷ joined base fs

unfoldable pub process_app_set : AppSetDirectory → AppSet → AppSetDirectory
unfolding add_app_set append_all joined register_all git_generators
process_app_set d app =
    let added = add_app_set d app in
    let parameters =
      append_all app.name (joined app.source.path app.source.file_parameters) added.app_set_files in
    let with_files = record added {
      app_set_files =
          append_all app.name (joined app.source.path app.source.value_files) parameters;
    } in
    register_all with_files app.name (git_generators app.generators)

unfoldable pub remove_app_set : AppSetDirectory → AppSet → AppSetDirectory
unfolding drop_all joined unregister_all git_generators
remove_app_set d app =
    let parameters =
      drop_all app.name (joined app.source.path app.source.file_parameters) d.app_set_files in
    let cleaned = record d {
      app_sets_map = delete app.name d.app_sets_map;
      app_set_dirs = drop_all app.name (app.source.path ∷ []) d.app_set_dirs;
      app_set_files = drop_all app.name (joined app.source.path app.source.value_files) parameters;
    } in
    unregister_all cleaned app.name (git_generators app.generators)

-- `Union`
unfoldable pub union_app_sets : AppSetDirectory → AppSetDirectory → AppSetDirectory
unfolding merge_maps merge_lists take_first
union_app_sets d other = record {
  app_set_dirs = merge_maps merge_lists d.app_set_dirs other.app_set_dirs;
  app_set_files = merge_maps merge_lists d.app_set_files other.app_set_files;
  app_sets_map = merge_maps take_first d.app_sets_map other.app_sets_map;
  app_set_dir_patterns = merge_maps merge_lists d.app_set_dir_patterns other.app_set_dir_patterns;
  app_set_file_patterns =
      merge_maps merge_lists d.app_set_file_patterns other.app_set_file_patterns;
}

-- The sets that were found, and their names.
pub record Found : Type 0 where
  pub names : List (Bytes × Bool)
  pub app_sets : List AppSet

-- A changed file that holds an application set, `none` for one that does not or cannot be parsed.
unfoldable pub find_own : Found → List (Option AppSet) → Found
find_own found [] = found
find_own found (none ∷ files) = find_own found files
find_own found (some s ∷ files) = elim (lookup s.name found.names) [
  | some b ↦ find_own found files
  | none ↦
      find_own
        (record { names = insert s.name true found.names; app_sets = found.app_sets ++ s ∷ [] })
        files
]

unfoldable pub find_names : AppSetDirectory → Found → List Bytes → Found
find_names d found [] = found
find_names d found (name ∷ names) = elim (lookup name found.names) [
  | some b ↦ find_names d found names
  | none ↦ elim (lookup name d.app_sets_map) [
    | none ↦ find_names d found names
    | some s ↦
        find_names d
          (record { names = insert name true found.names; app_sets = found.app_sets ++ s ∷ [] })
          names
  ]
]

unfoldable pub find_patterns :
    (Bytes → Bool) → AppSetDirectory → Found → List (Bytes × List Bytes) → Found
unfolding find_names
find_patterns matches d found [] = found
find_patterns matches d found ((pattern', names) ∷ patterns) =
    find_patterns matches d (if matches pattern' then find_names d found names else found) patterns

-- `glob_match` is `doublestar.Match` without an error.
module _ (glob_match : Bytes → Bytes → Bool) where
  -- `anyParentMatches` from a directory on; `path.Dir` shortens it in each round
  unfoldable pub parent_matches : ℕ → Bytes → Bytes → Bool
  parent_matches zero pattern' dir = glob_match pattern' dir
  parent_matches (suc n) pattern' dir =
      let more = parent_matches n pattern' (path_dir dir) in
      if glob_match pattern' dir
      then true
      else if bytes_eq dir (codes ".") || bytes_eq dir (codes "/") || bytes_eq (path_dir dir) dir
      then false
      else more

  unfoldable pub any_parent_matches : Bytes → Bytes → Bool
  unfolding parent_matches
  any_parent_matches pattern' file_path =
      let dir = path_dir file_path in parent_matches (length dir) pattern' dir

  -- The second pass.
  unfoldable pub find_changes : AppSetDirectory → Found → List Bytes → Found
  unfolding find_patterns any_parent_matches
  find_changes d found [] = found
  find_changes d found (change ∷ changes) =
      let path = clean (trim_prefix change (codes "/")) in
      let by_dir = find_patterns (λ p. any_parent_matches p path) d found d.app_set_dir_patterns in
      let by_file = find_patterns (λ p. glob_match p path) d by_dir d.app_set_file_patterns in
      find_changes d by_file changes

  -- `FindAppSetsBasedOnChangeList`, for what the changed files hold.
  unfoldable pub find_app_sets : AppSetDirectory → List (Option AppSet) → List Bytes → List AppSet
  unfolding find_own find_changes
  find_app_sets d own changes =
      (find_changes d (find_own (record { names = []; app_sets = [] }) own) changes).app_sets
