-- ===== src/Affected/Triggered.antt =====
-- pkg/affected_apps/config_matcher.go: which applications a change list triggers.
use kubechecks.Common.{
  Bytes, Bool, true, false, ◌&&◌, ◌||◌, List, [], ◌∷◌, ◌++◌, Option, none, some, lookup,
  lookup-insert, insert, bytes_eq, bytes_instance, is_empty, if◌then◌else◌, inl, inr, ◌⊎◌, ◌≡◌,
  refl, arith, ◌∙◌, sym, subst, ap, key-cases, Bool-cases,
}
use kubechecks.AppDir.{Application}
use kubechecks.Affected.{
  Config, AppConfig, AppSetConfig, AffectedItems, Failure, keys, values, modified_dirs, dir_map,
  path_dir, dir_match_for_app, additional_hits, applications_for_dir, sets_for_dir, apps_of_sets,
  triggered_by, put_apps, put_sets, trigger_dirs, triggered_apps, path_map, known_in, set_names,
  affected_by_config,
}

abbrev pub has_key {ℓ} : {A : Type ℓ} → Bytes → List (Bytes × A) → Bool
has_key n m = elim (lookup n m) [ none ↦ false | some a ↦ true ]

Result-cases {ℓ} :
    {A : Type ℓ} (r : Failure ⊎ A) → ((err : Failure) × (r ≡ inl err)) ⊎ ((a : A) × (r ≡ inr a))
Result-cases (inl err) = inl (err, refl)
Result-cases (inr a) = inr (a, refl)

or_false : (b : Bool) → (b || false) ≡ b
or_false true = refl
or_false false = refl

-- An application of the name is among them.
abbrev pub is_named : Bytes → List AppConfig → Bool
is_named n [] = false
is_named n (app ∷ apps) = bytes_eq app.name n || is_named n apps

is_named-append :
    (n : Bytes) (xs ys : List AppConfig) → is_named n (xs ++ ys) ≡ (is_named n xs || is_named n ys)
is_named-append n [] ys = refl
is_named-append n (x ∷ xs) ys = ground (arith, is_named-append n xs ys)

-- The directory matches a path of the application.
abbrev pub matches_any : Bytes → List Bytes → Bool
matches_any dir [] = false
matches_any dir (p ∷ ps) = dir_match_for_app dir p || matches_any dir ps

-- The configuration has an application of the name with a path that the directory matches.
abbrev pub is_configured : Bytes → Bytes → List AppConfig → Bool
is_configured n dir [] = false
is_configured n dir (app ∷ apps) =
    (bytes_eq app.name n && matches_any dir (app.path ∷ app.additional_paths))
    || is_configured n dir apps

is_named-additional_hits :
    (n dir : Bytes) (app : AppConfig) (ps : List Bytes)
    → is_named n (additional_hits dir app ps) ≡ (bytes_eq app.name n && matches_any dir ps)
unfolding additional_hits
is_named-additional_hits n dir app [] = ground arith
is_named-additional_hits n dir app (p ∷ ps) = ground (arith, is_named-additional_hits n dir app ps)

is_named-applications_for_dir :
    (n dir : Bytes) (apps : List AppConfig)
    → is_named n (applications_for_dir dir apps) ≡ is_configured n dir apps
unfolding applications_for_dir
is_named-applications_for_dir n dir [] = refl
is_named-applications_for_dir n dir (app ∷ apps) = ground (
  arith,
  is_named-applications_for_dir n dir apps,
  is_named-additional_hits n dir app app.additional_paths,
  is_named-append n (additional_hits dir app app.additional_paths) (applications_for_dir dir apps),
)

has_key-insert {ℓ} :
    {A : Type ℓ} (n k : Bytes) (v : A) (m : List (Bytes × A))
    → has_key n (insert k v m) ≡ (bytes_eq k n || has_key n m)
has_key-insert n k v m = ground (arith, lookup-insert k n v m)

-- Each entry is under the name of its application.
abbrev IsKeyed : List (Bytes × AppConfig) → Type 0
IsKeyed [] = Unit
IsKeyed ((k, app) ∷ m) = (app.name ≡ k) × IsKeyed m

is_named-values :
    (n : Bytes) (m : List (Bytes × AppConfig)) → IsKeyed m → is_named n (values m) ≡ has_key n m
unfolding lookup
is_named-values n [] h = refl
is_named-values n ((k, app) ∷ m) h =
    ground (arith, h.0, is_named-values n m h.1, ap (λ t. bytes_eq t n) h.0)

IsKeyed-insert :
    (k : Bytes) (app : AppConfig) (m : List (Bytes × AppConfig))
    → app.name ≡ k
    → IsKeyed m
    → IsKeyed (insert k app m)
unfolding insert
IsKeyed-insert k app [] e h = (e, tt)
IsKeyed-insert k app ((j, old) ∷ m) e h = elim (Bool-cases (bytes_eq j k)) [
  | inl f ↦ rw f (e, h.1)
  | inr f ↦ rw f (h.0, IsKeyed-insert k app m e h.1)
]

abbrev pub any : (Bytes → Bool) → List Bytes → Bool
any test [] = false
any test (s ∷ ss) = test s || any test ss

any-keys-insert :
    (test : Bytes → Bool) (k : Bytes) (m : List (Bytes × Bool))
    → any test (keys (insert k true m)) ≡ (test k || any test (keys m))
unfolding insert
any-keys-insert test k [] = refl
any-keys-insert test k ((j, b) ∷ m) = elim (key-cases j k) [
  | inl (same, e) ↦ ground (arith, ap test same)
  | inr (differ, e) ↦ ground (arith, any-keys-insert test k m)
]

-- The test of the directory of a changed file.
abbrev pub any_file : (Bytes → Bool) → List Bytes → Bool
any_file test [] = false
any_file test (file ∷ files) = test (path_dir file) || any_file test files

any-dir_map :
    (test : Bytes → Bool) (files : List Bytes) (dirs : List (Bytes × Bool))
    → any test (keys (dir_map files dirs)) ≡ (any_file test files || any test (keys dirs))
unfolding dir_map
any-dir_map test [] dirs = refl
any-dir_map test (file ∷ files) dirs = ground (
  arith,
  any-dir_map test files (insert (path_dir file) true dirs),
  any-keys-insert test (path_dir file) dirs,
)

abbrev pub has_app : Bytes → List Application → Bool
has_app n [] = false
has_app n (app ∷ apps) = bytes_eq app.name n || has_app n apps

module _ (by_appset : Bytes → Option (List Application))
    (destination_name : Application → Bytes) where
  -- The sets that a changed directory triggers hold an application of the name.
  abbrev pub is_in_sets : Config → Bytes → Bytes → Bool
  is_in_sets cfg n dir =
      elim (apps_of_sets by_appset destination_name (sets_for_dir dir cfg.application_sets)) [
        | inl err ↦ false
        | inr apps ↦ is_named n apps
      ]

  -- A changed directory triggers the applications with a path that it matches, or where there are
  -- none, those of the application sets that it matches.
  abbrev pub is_triggered : Config → Bytes → Bytes → Bool
  is_triggered cfg n dir =
      if is_empty (applications_for_dir dir cfg.applications)
      then is_in_sets cfg n dir
      else is_configured n dir cfg.applications

  triggered_by-is_triggered :
      (cfg : Config) (n dir : Bytes) (apps : List AppConfig) (sets : List AppSetConfig)
      → triggered_by by_appset destination_name cfg dir ≡ inr (apps, sets)
      → is_named n apps ≡ is_triggered cfg n dir
  unfolding triggered_by
  triggered_by-is_triggered cfg n dir apps sets e =
      ground (arith, is_named-applications_for_dir n dir cfg.applications)

  has_key-put_apps :
      (n : Bytes) (apps : List AppConfig) (m : List (Bytes × AppConfig))
      → has_key n (put_apps by_appset destination_name apps m) ≡ (is_named n apps || has_key n m)
  unfolding put_apps
  has_key-put_apps n [] m = refl
  has_key-put_apps n (app ∷ apps) m =
      ground
        (arith, has_key-put_apps n apps (insert app.name app m), has_key-insert n app.name app m)

  IsKeyed-put_apps :
      (apps : List AppConfig) (m : List (Bytes × AppConfig))
      → IsKeyed m
      → IsKeyed (put_apps by_appset destination_name apps m)
  unfolding put_apps
  IsKeyed-put_apps [] m h = h
  IsKeyed-put_apps (app ∷ apps) m h =
      IsKeyed-put_apps apps (insert app.name app m) (IsKeyed-insert app.name app m refl h)

  has_key-trigger_dirs :
      (cfg : Config) (n : Bytes) (dirs : List Bytes) (apps out : List (Bytes × AppConfig))
      (sets out_sets : List (Bytes × AppSetConfig))
      → trigger_dirs by_appset destination_name cfg dirs apps sets ≡ inr (out, out_sets)
      → IsKeyed apps
      → (has_key n out ≡ (any (is_triggered cfg n) dirs || has_key n apps)) × IsKeyed out
  unfolding trigger_dirs
  has_key-trigger_dirs cfg n [] apps out sets out_sets e h =
      let same : apps ≡ out = cc e in (sym (ap (has_key n) same), subst IsKeyed same h)
  has_key-trigger_dirs cfg n (dir ∷ dirs) apps out sets out_sets e h =
      elim (Result-cases (triggered_by by_appset destination_name cfg dir)) [
        | inl (err, f) ↦ absurd (ground arith)
        | inr ((more, more_sets), f) ↦
            let e' : trigger_dirs by_appset destination_name cfg dirs
                  (put_apps by_appset destination_name more apps)
                  (put_sets by_appset destination_name more_sets sets)
                ≡ inr (out, out_sets) =
              ground arith in
            let (g, keyed) =
              has_key-trigger_dirs cfg n dirs (put_apps by_appset destination_name more apps) out
                (put_sets by_appset destination_name more_sets sets) out_sets e'
                (IsKeyed-put_apps more apps h) in
            (
              ground (
                arith,
                g,
                has_key-put_apps n more apps,
                triggered_by-is_triggered cfg n dir more more_sets f,
              ),
              keyed,
            )
      ]

  has_key-path_map :
      (n : Bytes) (apps : List AppConfig) (m : List (Bytes × Bytes))
      → has_key n (path_map by_appset destination_name apps m) ≡ (is_named n apps || has_key n m)
  unfolding path_map
  has_key-path_map n [] m = refl
  has_key-path_map n (app ∷ apps) m = ground (
    arith,
    has_key-path_map n apps (insert app.name app.path m),
    has_key-insert n app.name app.path m,
  )

  has_app-known_in :
      (n : Bytes) (m : List (Bytes × Bytes)) (apps : List Application)
      → has_app n (known_in by_appset destination_name m apps) ≡ (has_key n m && has_app n apps)
  unfolding known_in
  has_app-known_in n m [] = ground arith
  has_app-known_in n m (app ∷ apps) = elim (key-cases app.name n) [
    | inl (same, f) ↦ ground (arith, has_app-known_in n m apps, ap (λ k. lookup k m) same)
    | inr (differ, f) ↦ ground (arith, has_app-known_in n m apps)
  ]

  -- Where nothing fails, the configuration makes exactly those applications affected that Argo CD
  -- lists and that the directory of some changed file triggers: by a path of theirs that it matches,
  -- or, where it matches no application, through an application set that holds them.
  pub has_app-affected_by_config :
      (cfg : Config) (files : List Bytes) (items : List Application) (out : AffectedItems)
      (n : Bytes)
      → affected_by_config by_appset destination_name cfg files (some items) ≡ inr out
      → has_app n out.applications ≡ (any_file (is_triggered cfg n) files && has_app n items)
  unfolding affected_by_config triggered_apps modified_dirs lookup
  has_app-affected_by_config cfg files items out n e =
      elim (Result-cases
        (trigger_dirs by_appset destination_name cfg (keys (dir_map files [])) [] [])) [
          | inl (err, f) ↦ absurd (ground arith)
          | inr ((apps, sets), f) ↦
              let (g, keyed) =
                has_key-trigger_dirs cfg n (keys (dir_map files [])) [] apps [] sets f tt in
              let m = path_map by_appset destination_name (values apps) [] in
              let made : AffectedItems = record {
                applications = known_in by_appset destination_name m items;
                application_sets = set_names by_appset destination_name (values sets);
              } in
              let same : made ≡ out = ground arith in
              let known : has_app n out.applications ≡ (has_key n apps && has_app n items) =
                ground (
                  arith,
                  ap (λ r. has_app n r.applications) same,
                  is_named-values n apps keyed,
                  has_key-path_map n (values apps) [],
                  has_app-known_in n m items,
                ) in
              let by_file : has_key n apps ≡ any_file (is_triggered cfg n) files =
                g ∙ or_false _ ∙ any-dir_map (is_triggered cfg n) files [] ∙ or_false _ in
              known ∙ ap (λ b. b && has_app n items) by_file
        ]
