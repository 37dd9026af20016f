-- ===== src/Kustomize/Reaching.antt =====
-- pkg/kustomize/process.go: the result is what can be reached from a kustomization.
use kubechecks.Common.{
  ℕ, zero, suc, Bytes, true, false, List, [], ◌∷◌, ◌++◌, some, ◌≡◌, ◌↔◌, refl, subst, Bool-cases,
  Option-cases, inl, inr, arith,
}
use kubechecks.Affected.{path_dir}
use kubechecks.Kustomize.{
  FileSystem, Kustomization, Opened, not_there, broken, parsed, Outcome, found, listed, contents,
  process_all, follow, enter, process_dir, process_kustomization_file,
}
use kubechecks.Kustomize.Results.{
  Holds, Holds-add_found, Holds-and_then, Holds-map, listed-append, listed_nothing, listed_head,
  listed_tail, listed_one, listed_same,
}
use kubechecks.Kustomize.Covering.{Covered, Covers, process_dir-Covers}

-- A directory is reached from another through the directories that kustomizations refer to.
listed_none : (x : Bytes) → listed x [] ≡ false
unfolding listed
listed_none x = refl

pub data Reaches (fs : FileSystem) : Bytes → Bytes → Type 0 where
  here : {a : Bytes} → Reaches fs a a
  onward :
      {a b c : Bytes} (k : Kustomization) (own subs : List Bytes)
      → fs.open_kustomization a ≡ parsed k
      → contents fs a k ≡ some (own, subs)
      → listed c subs ≡ true
      → Reaches fs c b
      → Reaches fs a b

module _ (fs : FileSystem) where
  -- A file that the kustomization of a reached directory has.
  abbrev pub ReachedFile : Bytes → Bytes → Type 0
  ReachedFile start x =
      (b : Bytes) × (k : Kustomization) × (own : List Bytes) × (subs : List Bytes) × Reaches fs
        start b
      × (fs.open_kustomization b ≡ parsed k)
      × (contents fs b k ≡ some (own, subs))
      × (listed x own ≡ true)

  -- A reached directory without a kustomization.
  abbrev pub ReachedLeaf : Bytes → Bytes → Type 0
  ReachedLeaf start x = Reaches fs start x × (fs.open_kustomization x ≡ not_there)

  abbrev IsReached : Bytes → List Bytes → List Bytes → List Bytes → Type 0
  IsReached start files dirs visited =
      ((x : Bytes) → listed x files ≡ true → ReachedFile start x)
      × ((x : Bytes) → listed x dirs ≡ true → ReachedLeaf start x)

  IsReached-join :
      (start : Bytes) (f d v f' d' v' : List Bytes)
      → IsReached start f d v
      → IsReached start f' d' v'
      → IsReached start (f ++ f') (d ++ d') v'
  IsReached-join start f d v f' d' v' (files, dirs) (files', dirs') = (
    (λ x e. elim (Bool-cases (listed x f)) [
      | inl left ↦ files x left
      | inr right ↦ files' x (ground (arith, listed-append x f f'))
    ]),
    (λ x e. elim (Bool-cases (listed x d)) [
      | inl left ↦ dirs x left
      | inr right ↦ dirs' x (ground (arith, listed-append x d d'))
    ]),
  )

  process_all-IsReached :
      (start : Bytes) (process : List Bytes → Bytes → Outcome × List Bytes) (v dirs : List Bytes)
      → ((w : List Bytes) (c : Bytes)
          → listed c dirs ≡ true
          → Holds (IsReached start) (process w c))
      → Holds (IsReached start) (process_all process v dirs)
  unfolding process_all
  process_all-IsReached start process v [] h =
      ((λ x e. absurd (listed_nothing x e)), (λ x e. absurd (listed_nothing x e)))
  process_all-IsReached start process v (dir ∷ dirs) h =
      Holds-and_then (IsReached start) (IsReached start) (process v dir)
        (λ w. process_all process w dirs)
        (h v dir (listed_head dir dirs dir (listed_one dir dir refl)))
        (λ f d w r.
          Holds-map (IsReached start) (λ f' d' u. IsReached start (f ++ f') (d ++ d') u)
            (process_all process w dirs)
            (process_all-IsReached start process w dirs (λ u c e. h u c (listed_tail dir dirs c e)))
            (λ f' d' u r'. IsReached-join start f d w f' d' u r r'))

  IsReached-onward :
      (a c : Bytes) (k : Kustomization) (own subs f d v : List Bytes)
      → fs.open_kustomization a ≡ parsed k
      → contents fs a k ≡ some (own, subs)
      → listed c subs ≡ true
      → IsReached c f d v
      → IsReached a f d v
  IsReached-onward a c k own subs f d v o e h (files, dirs) = (
    (λ x ex.
        let (b, k', own', subs', r, o', e', h') = files x ex in
        (b, k', own', subs', onward k own subs o e h r, o', e', h')),
    (λ x ex. let (r, leaf) = dirs x ex in (onward k own subs o e h r, leaf)),
  )

  enter-IsReached :
      (process : List Bytes → Bytes → Outcome × List Bytes) (v : List Bytes) (b : Bytes)
      (o : Opened)
      → fs.open_kustomization b ≡ o
      → ((w : List Bytes) (c : Bytes) → Holds (IsReached c) (process w c))
      → Holds (IsReached b) (enter fs process v b o)
  unfolding enter
  enter-IsReached process v b not_there e h = (
    (λ x ex. absurd (listed_nothing x ex)),
    (λ x ex. subst (ReachedLeaf b) (listed_same b x ex) (here, e)),
  )
  enter-IsReached process v b broken e h = tt
  enter-IsReached process v b (parsed k) e h = elim (Option-cases (contents fs b k)) [
    | inl lost ↦ rw (follow, lost) tt
    | inr ((own, subs), c) ↦
        rw (follow, c)
          (Holds-add_found (IsReached b) (IsReached b) own [] (process_all process v subs)
            (process_all-IsReached b process v subs (λ w x ex.
              Holds-map (IsReached x) (IsReached b) (process w x) (h w x)
                (λ f d u. IsReached-onward b x k own subs f d u e c ex)))
            (λ f d u. IsReached-join b own [] v f d u (
              (λ x ex. (b, k, own, subs, here, e, c, ex)),
              (λ x ex. absurd (listed_nothing x ex)),
            )))
  ]

  process_dir-IsReached :
      (fuel : ℕ) (v : List Bytes) (b : Bytes) → Holds (IsReached b) (process_dir fs fuel v b)
  unfolding process_dir
  process_dir-IsReached zero v b = tt
  process_dir-IsReached (suc fuel) v b = elim (Bool-cases (listed b v)) [
    | inl old ↦
        rw (process_dir, old)
          ((λ x e. absurd (listed_nothing x e)), (λ x e. absurd (listed_nothing x e)))
    | inr fresh ↦
        rw (process_dir, fresh)
          (enter-IsReached (process_dir fs fuel) (b ∷ v) b (fs.open_kustomization b) refl
            (process_dir-IsReached fuel))
  ]

  -- What is visited is closed under what kustomizations refer to.
  listed-Reaches :
      (f d w : List Bytes) (a b : Bytes)
      → ((x : Bytes) → listed x w ≡ true → Covered fs x f d w)
      → listed a w ≡ true
      → Reaches fs a b
      → listed b w ≡ true
  listed-Reaches f d w a _ closed e here = e
  listed-Reaches f d w a b closed e (onward k own subs o c h r) =
      listed-Reaches f d w _ b closed (((closed a e).1 k own subs o c).1 _ h) r

  result_of_dir :
      (fuel : ℕ) (b : Bytes) (files dirs : List Bytes)
      → (process_dir fs fuel [] b).0 ≡ found files dirs
      → (visited : List Bytes) × (process_dir fs fuel [] b ≡ (found files dirs, visited))
  result_of_dir fuel b files dirs e = ((process_dir fs fuel [] b).1, cc)

  -- While the file system does not change, the files and directories of a kustomization are exactly
  -- these: the files that the kustomizations of the reached directories have, and the reached
  -- directories that have no kustomization, from the directory of the given path.
  pub process_kustomization_file-IsReached :
      (fuel : ℕ) (path : Bytes) (files dirs : List Bytes) (x : Bytes)
      → process_kustomization_file fs fuel path ≡ found files dirs
      → ((listed x files ≡ true) ↔ ReachedFile (path_dir path) x)
        × ((listed x dirs ≡ true) ↔ ReachedLeaf (path_dir path) x)
  unfolding process_kustomization_file
  process_kustomization_file-IsReached fuel path files dirs x e =
      let start = path_dir path in
      let named : (process_dir fs fuel [] start).0 ≡ found files dirs = ground arith in
      let (visited, done) = result_of_dir fuel start files dirs named in
      let (grown, asked, covered) : Covers fs [] (start ∷ []) files dirs visited =
        subst (Holds (Covers fs [] (start ∷ []))) done (process_dir-Covers fs fuel [] start) in
      let (own_files, leaves) : IsReached start files dirs visited =
        subst (Holds (IsReached start)) done (process_dir-IsReached fuel [] start) in
      let closed : (y : Bytes) → listed y visited ≡ true → Covered fs y files dirs visited =
        λ y ey. covered y ey (listed_none y) in
      let all_of = listed-Reaches files dirs visited start in
      (
        (
          own_files x,
          (λ (b, k, own, subs, r, o, c, ex).
              ((closed b (all_of b closed (asked start (listed_one start start refl)) r)).1 k own
                  subs o c).0
                x ex),
        ),
        (
          leaves x,
          (λ (r, o).
              (closed x (all_of x closed (asked start (listed_one start start refl)) r)).0 o),
        ),
      )
