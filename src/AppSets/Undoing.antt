-- ===== src/AppSets/Undoing.antt =====
-- pkg/appdir/appset_directory.go: `RemoveAppSet` undoes `ProcessAppSet`.
use kubechecks.Common.{
  ◌≤◌, Bytes, false, List, [], ◌∷◌, ◌++◌, Option, none, some, lookup, lookup-insert, lookup-delete,
  insert, delete, bytes_instance, ◌≡◌, refl, arith, ap, ◌∙◌, key-cases, inl, inr,
}
use kubechecks.AppDir.{names_at}
use kubechecks.AppDir.Matching.{has_name}
use kubechecks.AppSets.{
  GitPath, GitGenerator, AppSet, AppSetDirectory, append_all, drop_all, registered, unregistered,
  register_git_gen, unregister_git_gen, register_all, unregister_all, git_generators, add_app_set,
  process_app_set, remove_app_set, joined,
}
use kubechecks.AppSets.Copies.{count, restored, count-append, append_all-append, drop_all-append}

count-registered :
    (k : Bytes) (ps : List GitPath) → count k (registered ps) ≤ count k (unregistered ps)
unfolding registered unregistered
count-registered k [] = omega arith
count-registered k (p ∷ ps) = ground (arith, count-registered k ps)

-- What all generators have.
abbrev across : (GitGenerator → List Bytes) → List (Option GitGenerator) → List Bytes
across paths [] = []
across paths (none ∷ gs) = across paths gs
across paths (some g ∷ gs) = paths g ++ across paths gs

abbrev registered_dirs : GitGenerator → List Bytes
registered_dirs g = registered g.directories

abbrev registered_files : GitGenerator → List Bytes
registered_files g = registered g.files

abbrev unregistered_dirs : GitGenerator → List Bytes
unregistered_dirs g = unregistered g.directories

abbrev unregistered_files : GitGenerator → List Bytes
unregistered_files g = unregistered g.files

count-across :
    (k : Bytes) (f g : GitGenerator → List Bytes) (gs : List (Option GitGenerator))
    → ((x : GitGenerator) → count k (f x) ≤ count k (g x))
    → count k (across f gs) ≤ count k (across g gs)
count-across k f g [] h = omega arith
count-across k f g (none ∷ gs) h = count-across k f g gs h
count-across k f g (some x ∷ gs) h = omega (
  arith,
  h x,
  count-across k f g gs h,
  count-append k (f x) (across f gs),
  count-append k (g x) (across g gs),
)

-- The directory after the generators are registered.
register_all_lem :
    (d : AppSetDirectory) (name : Bytes) (gs : List (Option GitGenerator))
    → register_all d name gs ≡ record d {
      app_set_dir_patterns = append_all name (across registered_dirs gs) d.app_set_dir_patterns;
      app_set_file_patterns = append_all name (across registered_files gs) d.app_set_file_patterns;
    }
unfolding register_all
register_all_lem d name [] = refl
register_all_lem d name (none ∷ gs) = register_all_lem d name gs
register_all_lem d name (some g ∷ gs) = cc (
  register_all_lem (register_git_gen d name (some g)) name gs,
  append_all-append name (registered_dirs g) (across registered_dirs gs) d.app_set_dir_patterns,
  append_all-append name (registered_files g) (across registered_files gs) d.app_set_file_patterns,
)

unregister_all_lem :
    (d : AppSetDirectory) (name : Bytes) (gs : List (Option GitGenerator))
    → unregister_all d name gs ≡ record d {
      app_set_dir_patterns = drop_all name (across unregistered_dirs gs) d.app_set_dir_patterns;
      app_set_file_patterns = drop_all name (across unregistered_files gs) d.app_set_file_patterns;
    }
unfolding unregister_all
unregister_all_lem d name [] = refl
unregister_all_lem d name (none ∷ gs) = unregister_all_lem d name gs
unregister_all_lem d name (some g ∷ gs) = cc (
  unregister_all_lem (unregister_git_gen d name (some g)) name gs,
  drop_all-append name (unregistered_dirs g) (across unregistered_dirs gs) d.app_set_dir_patterns,
  drop_all-append name (unregistered_files g) (across unregistered_files gs)
      d.app_set_file_patterns,
)

-- The files of the chart of an application set.
abbrev chart_files : AppSet → List Bytes
chart_files app =
    joined app.source.path app.source.file_parameters
    ++ joined app.source.path app.source.value_files

process_app_set_lem :
    (d : AppSetDirectory) (app : AppSet)
    → lookup app.name d.app_sets_map ≡ none
    → let gs = git_generators app.generators in
      process_app_set d app ≡ record {
        app_set_dirs = append_all app.name (app.source.path ∷ []) d.app_set_dirs;
        app_set_files = append_all app.name (chart_files app) d.app_set_files;
        app_sets_map = insert app.name app d.app_sets_map;
        app_set_dir_patterns =
            append_all app.name (across registered_dirs gs) d.app_set_dir_patterns;
        app_set_file_patterns =
            append_all app.name (across registered_files gs) d.app_set_file_patterns;
      }
unfolding process_app_set add_app_set
process_app_set_lem d app new =
    let gs = git_generators app.generators in
    let parameters = joined app.source.path app.source.file_parameters in
    let value_files = joined app.source.path app.source.value_files in
    let added : AppSetDirectory = record d {
      app_sets_map = insert app.name app d.app_sets_map;
      app_set_dirs = append_all app.name (app.source.path ∷ []) d.app_set_dirs;
    } in
    let is_added : add_app_set d app ≡ added = rw (add_app_set, new) refl in
    ap
      (λ a.
        register_all
          (record a {
            app_set_files =
                append_all app.name value_files (append_all app.name parameters a.app_set_files);
          })
          app.name gs)
      is_added
    ∙ register_all_lem
        (record added {
          app_set_files =
              append_all app.name value_files (append_all app.name parameters added.app_set_files);
        })
        app.name gs
    ∙ cc (append_all-append app.name parameters value_files d.app_set_files)

remove_app_set_lem :
    (d : AppSetDirectory) (app : AppSet)
    → let gs = git_generators app.generators in
      remove_app_set d app ≡ record {
        app_set_dirs = drop_all app.name (app.source.path ∷ []) d.app_set_dirs;
        app_set_files = drop_all app.name (chart_files app) d.app_set_files;
        app_sets_map = delete app.name d.app_sets_map;
        app_set_dir_patterns =
            drop_all app.name (across unregistered_dirs gs) d.app_set_dir_patterns;
        app_set_file_patterns =
            drop_all app.name (across unregistered_files gs) d.app_set_file_patterns;
      }
unfolding remove_app_set
remove_app_set_lem d app =
    let parameters = joined app.source.path app.source.file_parameters in
    let value_files = joined app.source.path app.source.value_files in
    unregister_all_lem _ app.name (git_generators app.generators)
    ∙ cc (drop_all-append app.name parameters value_files d.app_set_files)

lookup-delete-insert :
    (k n : Bytes) (app : AppSet) (m : List (Bytes × AppSet))
    → lookup k m ≡ none
    → lookup n (delete k (insert k app m)) ≡ lookup n m
lookup-delete-insert k n app m new = elim (key-cases k n) [
  | inl (same, test) ↦ ground (arith, lookup-delete k n (insert k app m), ap (λ t. lookup t m) same)
  | inr (differ, test) ↦ ground (arith, lookup-delete k n (insert k app m), lookup-insert k n app m)
]

-- No entry of the map has the name.
abbrev pub IsUnknown : Bytes → List (Bytes × List Bytes) → Type 0
IsUnknown name m = (k : Bytes) → has_name name (names_at k m) ≡ false

-- The two maps have the same names at every key.
abbrev pub IsSame : List (Bytes × List Bytes) → List (Bytes × List Bytes) → Type 0
IsSame m m' = (k : Bytes) → names_at k m ≡ names_at k m'

-- For an application set whose name the directory does not know, `RemoveAppSet` undoes
-- `ProcessAppSet`: every directory, file and glob has the names that it had before, in their order,
-- and every set its definition.
pub remove_app_set-process_app_set :
    (d : AppSetDirectory) (app : AppSet)
    → lookup app.name d.app_sets_map ≡ none
    → IsUnknown app.name d.app_set_dirs
    → IsUnknown app.name d.app_set_files
    → IsUnknown app.name d.app_set_dir_patterns
    → IsUnknown app.name d.app_set_file_patterns
    → IsSame (remove_app_set (process_app_set d app) app).app_set_dirs d.app_set_dirs
      × IsSame (remove_app_set (process_app_set d app) app).app_set_files d.app_set_files
      × IsSame
          (remove_app_set (process_app_set d app) app).app_set_dir_patterns
          d.app_set_dir_patterns
      × IsSame
          (remove_app_set (process_app_set d app) app).app_set_file_patterns
          d.app_set_file_patterns
      × ((n : Bytes)
          → lookup n (remove_app_set (process_app_set d app) app).app_sets_map
            ≡ lookup n d.app_sets_map)
remove_app_set-process_app_set d app new u v w x =
    let gs = git_generators app.generators in
    let whole = remove_app_set_lem (process_app_set d app) app in
    let made = process_app_set_lem d app new in
    (
      (λ k. cc (
        whole,
        made,
        restored app.name k (app.source.path ∷ []) (app.source.path ∷ []) d.app_set_dirs (u k)
            (omega arith),
      )),
      (λ k. cc (
        whole,
        made,
        restored app.name k (chart_files app) (chart_files app) d.app_set_files (v k) (omega arith),
      )),
      (λ k. cc (
        whole,
        made,
        restored app.name k (across registered_dirs gs) (across unregistered_dirs gs)
            d.app_set_dir_patterns (w k)
            (count-across k registered_dirs unregistered_dirs gs
              (λ g. count-registered k g.directories)),
      )),
      (λ k. cc (
        whole,
        made,
        restored app.name k (across registered_files gs) (across unregistered_files gs)
            d.app_set_file_patterns (x k)
            (count-across k registered_files unregistered_files gs
              (λ g. count-registered k g.files)),
      )),
      (λ n. cc (whole, made, lookup-delete-insert app.name n app d.app_sets_map new)),
    )
