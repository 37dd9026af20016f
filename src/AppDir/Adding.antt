-- ===== src/AppDir/Adding.antt =====
-- pkg/appdir/app_directory.go: an application that was added is found.
use kubechecks.Common.{
  Bytes, Bool, true, ◌||◌, List, [], ◌∷◌, ◌++◌, none, some, ◌≡◌, refl, ◌∙◌, lookup, insert,
  lookup-insert, bytes_eq, bytes_eq_iff, bytes_instance, if◌then◌else◌, arith,
}
use kubechecks.AppDir.{
  AppDirectory, Application, Source, names_at, dir_contains_path, add_dir, add_file, add_files,
  add_source, add_sources, join_two, add_app, get_sources,
}
use kubechecks.AppDir.Matching.{has_name, dir_names, is_touched}

has_name-snoc :
    (n m : Bytes) (ms : List Bytes) → has_name n (ms ++ m ∷ []) ≡ (has_name n ms || bytes_eq m n)
has_name-snoc n m [] = ground arith
has_name-snoc n m (k ∷ ms) = ground (arith, has_name-snoc n m ms)

dir_names-names_at :
    (n p change : Bytes) (dirs : List (Bytes × List Bytes))
    → has_name n (names_at p dirs) ≡ true
    → dir_contains_path p change ≡ true
    → dir_names n change dirs ≡ true
unfolding names_at lookup
dir_names-names_at n p change [] h c = cc
dir_names-names_at n p change ((dir, names) ∷ dirs) h c =
    ground (arith, bytes_eq_iff dir p, dir_names-names_at n p change dirs)

app_dirs-add_files :
    (d : AppDirectory) (app base : Bytes) (fs : List Bytes)
    → (add_files d app base fs).app_dirs ≡ d.app_dirs
unfolding add_files add_file
app_dirs-add_files d app base [] = refl
app_dirs-add_files d app base (f ∷ fs) =
    app_dirs-add_files (add_file d app (join_two base f)) app base fs

app_dirs-add_source :
    (d : AppDirectory) (app : Application) (src : Source)
    → (add_source d app src).app_dirs
      ≡ insert src.path (names_at src.path d.app_dirs ++ app.name ∷ []) d.app_dirs
unfolding add_source add_dir
app_dirs-add_source d app src =
    app_dirs-add_files _ app.name src.path src.value_files
    ∙ app_dirs-add_files _ app.name src.path src.file_parameters

names_at-add_source :
    (d : AppDirectory) (app : Application) (src : Source) (p : Bytes)
    → names_at p (add_source d app src).app_dirs ≡ (
        if bytes_eq src.path p
        then names_at p d.app_dirs ++ app.name ∷ []
        else names_at p d.app_dirs)
unfolding names_at
names_at-add_source d app src p = rw (app_dirs-add_source d app src) (
    ground (
      arith,
      bytes_eq_iff src.path p,
      lookup-insert src.path p (names_at src.path d.app_dirs ++ app.name ∷ []) d.app_dirs,
    ))

stays :
    (d : AppDirectory) (app : Application) (srcs : List Source) (p : Bytes)
    → has_name app.name (names_at p d.app_dirs) ≡ true
    → has_name app.name (names_at p (add_sources d app srcs).app_dirs) ≡ true
unfolding add_sources
stays d app [] p h = h
stays d app (src ∷ srcs) p h = stays (add_source d app src) app srcs p (
    ground (
      arith,
      names_at-add_source d app src p,
      has_name-snoc app.name app.name (names_at p d.app_dirs),
    ))

has_name-add_sources :
    (d : AppDirectory) (app : Application) (before : List Source) (src : Source)
    (after : List Source)
    → has_name app.name (names_at src.path (add_sources d app (before ++ src ∷ after)).app_dirs)
      ≡ true
unfolding add_sources
has_name-add_sources d app [] src after = stays (add_source d app src) app after src.path (
    ground (
      arith,
      bytes_eq_iff src.path src.path,
      bytes_eq_iff app.name app.name,
      names_at-add_source d app src src.path,
      has_name-snoc app.name app.name (names_at src.path d.app_dirs),
    ))
has_name-add_sources d app (s ∷ before) src after =
    has_name-add_sources (add_source d app s) app before src after

-- A new application that is added is affected by every changed path in the directory of one of its
-- sources.
pub add_app-is_touched :
    (get_source : Application → Source) (has_multiple_sources : Application → Bool)
    (d d' : AppDirectory) (app : Application) (before : List Source) (src : Source)
    (after : List Source) (change : Bytes)
    → lookup app.name d.apps_map ≡ none
    → get_sources get_source has_multiple_sources app ≡ some (before ++ src ∷ after)
    → add_app get_source has_multiple_sources d app ≡ some d'
    → dir_contains_path src.path change ≡ true
    → is_touched app.name d' (change ∷ []) ≡ true
unfolding add_app
add_app-is_touched get_source has_multiple_sources d d' app before src after change new srcs added
      c =
    ground (
      arith,
      has_name-add_sources d app before src after,
      dir_names-names_at app.name src.path change d'.app_dirs,
    )
