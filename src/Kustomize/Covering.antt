-- ===== src/Kustomize/Covering.antt =====
-- pkg/kustomize/process.go: nothing that a kustomization refers to is left out.
use kubechecks.Common.{
  ℕ, zero, suc, Bytes, true, false, List, [], ◌∷◌, ◌++◌, some, ◌≡◌, refl, ap, subst, ◌∙◌,
  Bool-cases, Option-cases, inl, inr, arith,
}
use kubechecks.Kustomize.{
  FileSystem, Kustomization, Opened, not_there, broken, parsed, Outcome, listed, contents,
  process_all, follow, enter, process_dir,
}
use kubechecks.Kustomize.Fuel.{Within}
use kubechecks.Kustomize.Results.{
  Holds, Holds-add_found, Holds-and_then, Holds-map, listed-append, Within-left, Within-right,
  listed_nothing, listed_head, listed_tail, listed_later, listed_new, listed_one, listed_same,
  same_pair,
}

module _ (fs : FileSystem) where
  same_contents :
      (b : Bytes) (k k' : Kustomization) (own subs own' subs' : List Bytes)
      → fs.open_kustomization b ≡ parsed k
      → fs.open_kustomization b ≡ parsed k'
      → contents fs b k ≡ some (own, subs)
      → contents fs b k' ≡ some (own', subs')
      → (own ≡ own') × (subs ≡ subs')
  same_contents b k k' own subs own' subs' o o' c c' =
      let e : k ≡ k' = cc in
      same_pair (contents fs b k) own subs own' subs' c (ap (contents fs b) e ∙ c')

  -- A visited directory is in the result if it has no kustomization, and all that its kustomization
  -- refers to is in the result or visited.
  abbrev pub Covered : Bytes → List Bytes → List Bytes → List Bytes → Type 0
  Covered x files dirs visited =
      (fs.open_kustomization x ≡ not_there → listed x dirs ≡ true)
      × ((k : Kustomization) (own subs : List Bytes)
          → fs.open_kustomization x ≡ parsed k
          → contents fs x k ≡ some (own, subs)
          → Within own files × Within subs visited)

  -- What a call on some directories yields: they are visited, and what was not before is covered.
  abbrev pub Covers : List Bytes → List Bytes → List Bytes → List Bytes → List Bytes → Type 0
  Covers before asked files dirs visited =
      Within before visited
      × Within asked visited
      × ((x : Bytes)
          → listed x visited ≡ true
          → listed x before ≡ false
          → Covered x files dirs visited)

  Covered-later :
      (x : Bytes) (f d v f' d' w : List Bytes)
      → Covered x f d v
      → Within v w
      → Covered x (f ++ f') (d ++ d') w
  Covered-later x f d v f' d' w (leaf, node) h = (
    (λ e. ground (arith, leaf e, listed-append x d d')),
    (λ k own subs e c.
        let (a, b) = node k own subs e c in (Within-left own f f' a, (λ y ey. h y (b y ey)))),
  )

  Covered-after :
      (x : Bytes) (f d f' d' w : List Bytes) → Covered x f' d' w → Covered x (f ++ f') (d ++ d') w
  Covered-after x f d f' d' w (leaf, node) = (
    (λ e. ground (arith, leaf e, listed-append x d d')),
    (λ k own subs e c. let (a, b) = node k own subs e c in (Within-right own f f' a, b)),
  )

  Covers-join :
      (v : List Bytes) (dir : Bytes) (dirs f d w f' d' u : List Bytes)
      → Covers v (dir ∷ []) f d w
      → Covers w dirs f' d' u
      → Covers v (dir ∷ dirs) (f ++ f') (d ++ d') u
  Covers-join v dir dirs f d w f' d' u (grown, asked, covered) (grown', asked', covered') = (
    (λ x e. grown' x (grown x e)),
    (λ x e. elim (Bool-cases (listed x (dir ∷ []))) [
      | inl here ↦ grown' x (asked x here)
      | inr later ↦ asked' x (listed_later dir dirs x e later)
    ]),
    (λ x e fresh. elim (Bool-cases (listed x w)) [
      | inl early ↦ Covered-later x f d w f' d' u (covered x early fresh) grown'
      | inr later ↦ Covered-after x f d f' d' u (covered' x e later)
    ]),
  )

  process_all-Covers :
      (process : List Bytes → Bytes → Outcome × List Bytes) (v dirs : List Bytes)
      → ((w : List Bytes) (b : Bytes) → Holds (Covers w (b ∷ [])) (process w b))
      → Holds (Covers v dirs) (process_all process v dirs)
  unfolding process_all
  process_all-Covers process v [] h =
      ((λ x e. e), (λ x e. absurd (listed_nothing x e)), (λ x e fresh. absurd (ground arith)))
  process_all-Covers process v (dir ∷ dirs) h =
      Holds-and_then (Covers v (dir ∷ [])) (Covers v (dir ∷ dirs)) (process v dir)
        (λ w. process_all process w dirs) (h v dir)
        (λ f d w c.
          Holds-map (Covers w dirs) (λ f' d' u. Covers v (dir ∷ dirs) (f ++ f') (d ++ d') u)
            (process_all process w dirs) (process_all-Covers process w dirs h)
            (λ f' d' u c'. Covers-join v dir dirs f d w f' d' u c c'))

  -- A directory whose kustomization is followed covers itself.
  Covers-node :
      (v : List Bytes) (b : Bytes) (k : Kustomization) (own subs f d w : List Bytes)
      → fs.open_kustomization b ≡ parsed k
      → contents fs b k ≡ some (own, subs)
      → Covers (b ∷ v) subs f d w
      → Covers v (b ∷ []) (own ++ f) d w
  Covers-node v b k own subs f d w o c (grown, asked, covered) = (
    (λ x e. grown x (listed_tail b v x e)),
    (λ x e. grown x (listed_head b v x e)),
    (λ x e fresh. elim (Bool-cases (listed x (b ∷ v))) [
      | inr later ↦ Covered-after x own [] f d w (covered x e later)
      | inl now ↦
          let same : b ≡ x = listed_new b v x now fresh in
          subst (λ y. Covered y (own ++ f) d w) same
            (
              (λ leaf. absurd (ground arith)),
              (λ k' own' subs' o' c'.
                  let (eo, es) = same_contents b k k' own subs own' subs' o o' c c' in
                  (
                    subst (λ z. Within z (own ++ f)) eo (Within-left own own f (λ y ey. ey)),
                    subst (λ z. Within z w) es asked,
                  )),
            )
    ]),
  )

  enter-Covers :
      (process : List Bytes → Bytes → Outcome × List Bytes) (v : List Bytes) (b : Bytes)
      (o : Opened)
      → fs.open_kustomization b ≡ o
      → ((w : List Bytes) (c : Bytes) → Holds (Covers w (c ∷ [])) (process w c))
      → Holds (Covers v (b ∷ [])) (enter fs process (b ∷ v) b o)
  unfolding enter
  enter-Covers process v b not_there e h = (
    listed_tail b v,
    listed_head b v,
    (λ x new fresh.
        let same = listed_new b v x new fresh in
        ((λ leaf. listed_one b x same), (λ k own subs o c. absurd (ground (arith, same))))),
  )
  enter-Covers process v b broken e h = tt
  enter-Covers process v b (parsed k) e h = elim (Option-cases (contents fs b k)) [
    | inl lost ↦ rw (follow, lost) tt
    | inr ((own, subs), c) ↦
        rw (follow, c)
          (Holds-add_found (Covers (b ∷ v) subs) (Covers v (b ∷ [])) own []
            (process_all process (b ∷ v) subs) (process_all-Covers process (b ∷ v) subs h)
            (λ f d w. Covers-node v b k own subs f d w e c))
  ]

  pub process_dir-Covers :
      (fuel : ℕ) (v : List Bytes) (b : Bytes) → Holds (Covers v (b ∷ [])) (process_dir fs fuel v b)
  unfolding process_dir
  process_dir-Covers zero v b = tt
  process_dir-Covers (suc fuel) v b = elim (Bool-cases (listed b v)) [
    | inl old ↦
        rw (process_dir, old)
          (
            (λ x e. e),
            (λ x e. subst (λ y. listed y v ≡ true) (listed_same b x e) old),
            (λ x e fresh. absurd (ground arith)),
          )
    | inr fresh ↦
        rw (process_dir, fresh)
          (enter-Covers (process_dir fs fuel) v b (fs.open_kustomization b) refl
            (process_dir-Covers fuel))
  ]
