-- ===== src/AppDir.antt =====
-- pkg/appdir/app_directory.go: which applications a change of files affects. An application and its
-- sources are Argo CD's; what its methods return is a parameter of the operations. Maps are
-- association lists, and the order of the loops over them is their order.
pub mod Adding
pub mod Matching
pub mod Removing
pub mod Selecting
pub mod Union
pub mod Touching
pub mod Cleaning
use kubechecks.Common.{
  ℕ, Bytes, codes, Bool, true, false, ◌&&◌, ◌||◌, List, [], ◌∷◌, ◌++◌, map, reverse, Option, none,
  some, lookup, insert, delete, bytes_eq, bytes_instance, has_prefix, length, if◌then◌else◌, ◌==◌,
}
use kubechecks.RepoUrl.{trim_prefix}

-- `ApplicationSource`, as far as it is read: the files of `Helm` are its `FileParameters` and its
-- `ValueFiles`, none without a chart.
pub record Source : Type 0 where
  pub repo_url : Bytes
  pub path : Bytes
  pub target_revision : Bytes
  pub file_parameters : List Bytes
  pub value_files : List Bytes

-- `Application`: its name, the single source and the list of sources of its spec, and what else it
-- holds (its destination, its project, its sync policy and so on), which the directories only keep.
pub record Application : Type 0 where
  pub name : Bytes
  pub source : Option Source
  pub sources : List Source
  pub rest : Bytes

pub record AppDirectory : Type 0 where
  pub app_dirs : List (Bytes × List Bytes)
  pub app_files : List (Bytes × List Bytes)
  pub apps_map : List (Bytes × Application)

unfoldable pub new_app_directory : AppDirectory
new_app_directory = record { app_dirs = []; app_files = []; apps_map = [] }

-- A missing key gives no names.
unfoldable pub names_at : Bytes → List (Bytes × List Bytes) → List Bytes
names_at k m = elim (lookup k m) [ none ↦ [] | some names ↦ names ]

-- `path.Clean`: the elements between the slashes, of which "." and empty ones go, and ".." takes
-- the element before it with it.
unfoldable pub elements : Bytes → Bytes → List Bytes
elements cur [] = reverse cur ∷ []
elements cur (b ∷ s) = if b == 47 then reverse cur ∷ elements [] s else elements (b ∷ cur) s

unfoldable pub clean_step : Bool → List Bytes → Bytes → List Bytes
clean_step rooted stack e =
    if bytes_eq e [] || bytes_eq e (codes ".")
    then stack
    else if bytes_eq e (codes "..")
    then (elim stack [
      | [] ↦ if rooted then [] else e ∷ []
      | top ∷ rest ↦ if bytes_eq top (codes "..") then e ∷ (top ∷ rest) else rest
    ])
    else e ∷ stack

unfoldable pub clean_stack : Bool → List Bytes → List Bytes → List Bytes
clean_stack rooted stack [] = stack
clean_stack rooted stack (e ∷ es) = clean_stack rooted (clean_step rooted stack e) es

unfoldable pub join_path : List Bytes → Bytes
join_path [] = []
join_path (e ∷ []) = e
join_path (e ∷ (f ∷ es)) = e ++ 47 ∷ join_path (f ∷ es)

unfoldable pub clean : Bytes → Bytes
unfolding elements clean_stack join_path
clean p =
    let rooted = has_prefix p (codes "/") in
    let body = join_path (reverse (clean_stack rooted [] (elements [] p))) in
    if rooted then 47 ∷ body else if bytes_eq body [] then codes "." else body

-- `filepath.Join` of two elements; empty ones are left out.
unfoldable pub join_two : Bytes → Bytes → Bytes
unfolding clean
join_two a b =
    if bytes_eq a [] && bytes_eq b []
    then []
    else if bytes_eq a []
    then clean b
    else if bytes_eq b []
    then clean a
    else clean (a ++ 47 ∷ b)

unfoldable pub dir_contains_path : Bytes → Bytes → Bool
dir_contains_path dir change_path =
    let change = clean change_path in
    let d = clean dir in
    let base = trim_prefix d (codes "/") in
    if bytes_eq d (codes ".") || bytes_eq d (codes "/")
    then true
    else if bytes_eq change base
    then true
    else has_prefix change (base ++ 47 ∷ [])

-- `appsSet[name] = struct{}{}`
unfoldable pub add_name : Bytes → List (Bytes × Bool) → List (Bytes × Bool)
add_name name set = insert name true set

unfoldable pub add_names : List Bytes → List (Bytes × Bool) → List (Bytes × Bool)
unfolding add_name
add_names [] set = set
add_names (name ∷ names) set = add_names names (add_name name set)

unfoldable pub match_dirs :
    Bytes → List (Bytes × List Bytes) → List (Bytes × Bool) → List (Bytes × Bool)
match_dirs change [] set = set
match_dirs change ((dir, names) ∷ dirs) set =
    match_dirs change dirs (if dir_contains_path dir change then add_names names set else set)

-- The loop over the changed paths.
unfoldable pub affected : AppDirectory → List Bytes → List (Bytes × Bool) → List (Bytes × Bool)
affected d [] set = set
affected d (change ∷ changes) set =
    affected d changes (add_names (names_at change d.app_files) (match_dirs change d.app_dirs set))

-- `removeFromSlice`
unfoldable pub remove_from_slice : List Bytes → Bytes → List Bytes
remove_from_slice [] name = []
remove_from_slice (n ∷ names) name =
    if bytes_eq n name then names else n ∷ remove_from_slice names name

unfoldable pub add_dir : AppDirectory → Bytes → Bytes → AppDirectory
add_dir d app path = record d {
  app_dirs = insert path (names_at path d.app_dirs ++ app ∷ []) d.app_dirs;
}

unfoldable pub add_file : AppDirectory → Bytes → Bytes → AppDirectory
add_file d app path = record d {
  app_files = insert path (names_at path d.app_files ++ app ∷ []) d.app_files;
}

unfoldable pub add_files : AppDirectory → Bytes → Bytes → List Bytes → AppDirectory
unfolding add_file
add_files d app base [] = d
add_files d app base (f ∷ fs) = add_files (add_file d app (join_two base f)) app base fs

unfoldable pub add_source : AppDirectory → Application → Source → AppDirectory
unfolding add_dir add_files
add_source d app src =
    let known = record d { apps_map = insert app.name app d.apps_map } in
    let located = add_dir known app.name src.path in
    add_files (add_files located app.name src.path src.file_parameters) app.name src.path
      src.value_files

unfoldable pub add_sources : AppDirectory → Application → List Source → AppDirectory
unfolding add_source
add_sources d app [] = d
add_sources d app (src ∷ srcs) = add_sources (add_source d app src) app srcs

unfoldable pub remove_file : AppDirectory → Bytes → Bytes → AppDirectory
unfolding remove_from_slice
remove_file d app path = record d {
  app_files = insert path (remove_from_slice (names_at path d.app_files) app) d.app_files;
}

unfoldable pub remove_files : AppDirectory → Bytes → Bytes → List Bytes → AppDirectory
unfolding remove_file
remove_files d app base [] = d
remove_files d app base (f ∷ fs) = remove_files (remove_file d app (join_two base f)) app base fs

-- `mergeMaps`
unfoldable pub merge_maps {ℓ} :
    {A : Type ℓ} → (A → A → A) → List (Bytes × A) → List (Bytes × A) → List (Bytes × A)
merge_maps combine first [] = first
merge_maps {A = A} combine first ((k, v) ∷ second) =
    let merged : A = elim (lookup k first) [ none ↦ v | some w ↦ combine w v ] in
    merge_maps combine (insert k merged first) second

unfoldable pub take_first {ℓ} : {A : Type ℓ} → A → A → A
take_first a b = a

unfoldable pub merge_lists : List Bytes → List Bytes → List Bytes
merge_lists a b = a ++ b

unfoldable pub union : AppDirectory → AppDirectory → AppDirectory
unfolding merge_maps
union d other = record {
  apps_map = merge_maps take_first d.apps_map other.apps_map;
  app_dirs = merge_maps merge_lists d.app_dirs other.app_dirs;
  app_files = merge_maps merge_lists d.app_files other.app_files;
}

-- `Spec.GetSource` and `Spec.HasMultipleSources` are Argo CD's.
module _ (get_source : Application → Source) (has_multiple_sources : Application → Bool) where
  unfoldable pub should_include : Application → Bytes → Bool
  should_include app target_branch =
      let revision = (get_source app).target_revision in
      if bytes_eq revision []
      then true
      else if bytes_eq revision target_branch
      then true
      else bytes_eq revision (codes "HEAD")
        && (bytes_eq target_branch (codes "main") || bytes_eq target_branch (codes "master"))

  unfoldable pub select : AppDirectory → Bytes → List (Bytes × Bool) → List Application
  unfolding should_include
  select d target_branch [] = []
  select d target_branch ((name, b) ∷ set) =
      let rest = select d target_branch set in
      elim (lookup name d.apps_map) [
        | none ↦ rest
        | some app ↦ if should_include app target_branch then app ∷ rest else rest
      ]

  unfoldable pub find_apps_based_on_change_list :
      AppDirectory → List Bytes → Bytes → List Application
  unfolding select affected
  find_apps_based_on_change_list d changes target_branch =
      select d target_branch (affected d changes [])

  -- Without multiple sources, the pointer to the single one is followed; `none` is a panic.
  unfoldable pub get_sources : Application → Option (List Source)
  get_sources app =
      if has_multiple_sources app
      then some app.sources
      else elim app.source [ none ↦ none | some s ↦ some (s ∷ []) ]

  unfoldable pub add_app : AppDirectory → Application → Option AppDirectory
  unfolding add_sources
  add_app d app = elim (lookup app.name d.apps_map) [
    | some old ↦ some d
    | none ↦ elim (get_sources app) [ none ↦ none | some srcs ↦ some (add_sources d app srcs) ]
  ]

  unfoldable pub remove_app : AppDirectory → Application → AppDirectory
  unfolding remove_files remove_from_slice
  remove_app d app =
      let src = get_source app in
      let names = remove_from_slice (names_at src.path d.app_dirs) app.name in
      let d' = record d {
        apps_map = delete app.name d.apps_map;
        app_dirs = insert src.path names d.app_dirs;
      } in
      remove_files (remove_files d' app.name src.path src.file_parameters) app.name src.path
        src.value_files
