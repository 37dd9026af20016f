-- ===== src/AppDir/Removing.antt =====
-- pkg/appdir/app_directory.go: what the removal of an application leaves.
use kubechecks.Common.{
  ℕ, suc, ◌-◌, ◌&&◌, ap, Bytes, Bool, List, [], ◌∷◌, none, ◌≡◌, refl, ◌∙◌, lookup, insert, delete,
  lookup-insert, lookup-delete, bytes_eq, bytes_eq_iff, bytes_instance, if◌then◌else◌, arith,
}
use kubechecks.AppDir.{
  AppDirectory, Application, Source, names_at, remove_file, remove_files, remove_from_slice,
  remove_app, join_two,
}

kept-remove_files :
    (d : AppDirectory) (app base : Bytes) (fs : List Bytes)
    → ((remove_files d app base fs).app_dirs ≡ d.app_dirs)
      × ((remove_files d app base fs).apps_map ≡ d.apps_map)
unfolding remove_files remove_file
kept-remove_files d app base [] = (refl, refl)
kept-remove_files d app base (f ∷ fs) =
    kept-remove_files (remove_file d app (join_two base f)) app base fs

app_dirs-remove_app :
    (get_source : Application → Source) (has_multiple_sources : Application → Bool)
    (d : AppDirectory) (app : Application)
    → (remove_app get_source has_multiple_sources d app).app_dirs
      ≡ insert
          (get_source app).path
          (remove_from_slice (names_at (get_source app).path d.app_dirs) app.name)
          d.app_dirs
unfolding remove_app
app_dirs-remove_app get_source has_multiple_sources d app =
    (kept-remove_files _ app.name (get_source app).path (get_source app).value_files).0
    ∙ (kept-remove_files _ app.name (get_source app).path (get_source app).file_parameters).0

apps_map-remove_app :
    (get_source : Application → Source) (has_multiple_sources : Application → Bool)
    (d : AppDirectory) (app : Application)
    → (remove_app get_source has_multiple_sources d app).apps_map ≡ delete app.name d.apps_map
unfolding remove_app
apps_map-remove_app get_source has_multiple_sources d app =
    (kept-remove_files _ app.name (get_source app).path (get_source app).value_files).1
    ∙ (kept-remove_files _ app.name (get_source app).path (get_source app).file_parameters).1

names_at_removed :
    (get_source : Application → Source) (has_multiple_sources : Application → Bool)
    (d : AppDirectory) (app : Application) (p : Bytes)
    → names_at p (remove_app get_source has_multiple_sources d app).app_dirs ≡ (
        if bytes_eq (get_source app).path p
        then remove_from_slice (names_at p d.app_dirs) app.name
        else names_at p d.app_dirs)
unfolding names_at
names_at_removed get_source has_multiple_sources d app p =
    rw (app_dirs-remove_app get_source has_multiple_sources d app) (
      ground (
        arith,
        bytes_eq_iff (get_source app).path p,
        lookup-insert (get_source app).path p
            (remove_from_slice (names_at (get_source app).path d.app_dirs) app.name) d.app_dirs,
      ))

-- How often a name stands in a list.
abbrev pub count_name : Bytes → List Bytes → ℕ
count_name n [] = 0
count_name n (m ∷ names) = if bytes_eq m n then suc (count_name n names) else count_name n names

count_name-remove_from_slice :
    (n : Bytes) (names : List Bytes) (name : Bytes)
    → count_name n (remove_from_slice names name)
      ≡ (if bytes_eq name n then count_name n names - 1 else count_name n names)
unfolding remove_from_slice
count_name-remove_from_slice n [] name = ground arith
count_name-remove_from_slice n (m ∷ names) name = ground (
  arith,
  count_name-remove_from_slice n names name,
  bytes_eq_iff m name,
  bytes_eq_iff name n,
  bytes_eq_iff m n,
)

-- A removed application has no definition any more. Under the path of the source that `GetSource`
-- returns, its name stands once less than before, if it stood there, and every other name as often
-- as before; under every other directory every name stands as often as before, that of the removed
-- application included.
pub names_at-remove_app :
    (get_source : Application → Source) (has_multiple_sources : Application → Bool)
    (d : AppDirectory) (app : Application) (p n : Bytes)
    → (lookup app.name (remove_app get_source has_multiple_sources d app).apps_map ≡ none)
      × (count_name n (names_at p (remove_app get_source has_multiple_sources d app).app_dirs) ≡ (
          if bytes_eq (get_source app).path p && bytes_eq app.name n
          then count_name n (names_at p d.app_dirs) - 1
          else count_name n (names_at p d.app_dirs)))
names_at-remove_app get_source has_multiple_sources d app p n = (
  rw (apps_map-remove_app get_source has_multiple_sources d app)
      (ground (arith, lookup-delete app.name app.name d.apps_map, bytes_eq_iff app.name app.name)),
  ground (
    arith,
    ap (count_name n) (names_at_removed get_source has_multiple_sources d app p),
    count_name-remove_from_slice n (names_at p d.app_dirs) app.name,
  ),
)
