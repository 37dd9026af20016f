-- ===== src/Removals/Trees.antt =====
-- pkg/checks/diff/removals.go: what `removePath` removes, and what it leaves.
use kubechecks.Common.{
  ℕ, suc, Bytes, Bool, true, false, ◌&&◌, not, List, [], ◌∷◌, Option, none, some, ◌≡◌, refl,
  bytes_eq, bytes_eq_iff, if◌then◌else◌, arith, Option-cases, inl, inr,
}
use kubechecks.Removals.{
  Value, object, array, scalar, Fields, end, field, Items, nil, cons, PathElement, name, FieldPath,
  get_field, delete_field, set_field, get_item, list_index, step, has_path, put, remove_last,
  remove_path,
}

abbrev pub is_some {ℓ} : {A : Type ℓ} → Option A → Bool
is_some none = false
is_some (some a) = true

module _ (equals : Value → Value → Bool) where
  -- An index that was found is one of the list.
  list_index-get_item :
      (vs : Items) (i : ℕ) (pe : PathElement)
      → elim (list_index equals vs i pe) [ none ↦ true | some j ↦ is_some (get_item vs j) ] ≡ true
  unfolding list_index get_item
  list_index-get_item nil i pe = refl
  list_index-get_item (cons v vs) i pe = ground (arith, list_index-get_item vs (suc i) pe)

  is_some-step-put :
      (v w : Value) (pe : PathElement) → is_some (put equals v pe w) ≡ is_some (step equals v pe)
  unfolding put step
  is_some-step-put (object m) w (name n) = ground arith
  is_some-step-put (object m) w pe = refl
  is_some-step-put (array l) w (name n) = refl
  is_some-step-put (array l) w pe = ground (arith, list_index-get_item l 0 pe)
  is_some-step-put (scalar s) w (name n) = refl
  is_some-step-put (scalar s) w pe = refl

  is_some-remove_last :
      (v : Value) (pe : PathElement)
      → is_some (remove_last equals v pe) ≡ is_some (step equals v pe)
  unfolding remove_last step
  is_some-remove_last (object m) (name n) = ground arith
  is_some-remove_last (object m) pe = refl
  is_some-remove_last (array l) (name n) = refl
  is_some-remove_last (array l) pe = ground (arith, list_index-get_item l 0 pe)
  is_some-remove_last (scalar s) (name n) = refl
  is_some-remove_last (scalar s) pe = refl

  -- `removePath` removes something exactly if the path is there, whatever elements it goes through.
  pub remove_path-has_path :
      (v : Value) (pe : PathElement) (p : FieldPath)
      → is_some (remove_path equals v (pe ∷ p)) ≡ has_path equals v (pe ∷ p)
  unfolding remove_path has_path
  remove_path-has_path v pe [] = ground (arith, is_some-remove_last v pe)
  remove_path-has_path v pe (q ∷ p) = elim (Option-cases (step equals v pe)) [
    | inl missing ↦ ground arith
    | inr (child, there) ↦ elim (Option-cases (remove_path equals child (q ∷ p))) [
      | inl n ↦ ground (arith, remove_path-has_path child q p)
      | inr (c, r) ↦ ground (arith, remove_path-has_path child q p, is_some-step-put v c pe)
    ]
  ]

  get_field-delete_field :
      (n k : Bytes) (fs : Fields)
      → get_field k (delete_field n fs) ≡ (if bytes_eq n k then none else get_field k fs)
  unfolding get_field delete_field
  get_field-delete_field n k end = ground arith
  get_field-delete_field n k (field m v fs) =
      ground
        (arith, bytes_eq_iff n k, bytes_eq_iff m n, bytes_eq_iff m k, get_field-delete_field n k fs)

  get_field-set_field :
      (n k : Bytes) (w : Value) (fs : Fields)
      → get_field k (set_field n w fs) ≡ (if bytes_eq n k then some w else get_field k fs)
  unfolding get_field set_field
  get_field-set_field n k w end = refl
  get_field-set_field n k w (field m v fs) =
      ground
        (arith, bytes_eq_iff n k, bytes_eq_iff m n, bytes_eq_iff m k, get_field-set_field n k w fs)

-- A path of names, as one of a manifest without lists.
abbrev pub names : List Bytes → FieldPath
names [] = []
names (n ∷ ns) = name n ∷ names ns

abbrev pub starts_with : List Bytes → List Bytes → Bool
starts_with ms [] = true
starts_with [] (n ∷ ns) = false
starts_with (m ∷ ms) (n ∷ ns) = bytes_eq n m && starts_with ms ns

module _ (equals : Value → Value → Bool) where
  removed_field :
      (v w : Value) (n k : Bytes) (ks : List Bytes)
      → remove_path equals v (names (n ∷ [])) ≡ some w
      → has_path equals w (names (k ∷ ks))
        ≡ (has_path equals v (names (k ∷ ks)) && not (starts_with (k ∷ ks) (n ∷ [])))
  unfolding remove_path remove_last has_path step
  removed_field (array l) w n k ks h = absurd (cc)
  removed_field (scalar s) w n k ks h = absurd (cc)
  removed_field (object m) w n k ks h = elim (Option-cases (get_field n m)) [
    | inl missing ↦ absurd (ground arith)
    | inr (old, there) ↦
        let e : w ≡ object (delete_field n m) = ground arith in
        rw e (ground (arith, get_field-delete_field equals n k m))
  ]

  -- The parts of a successful removal below a name.
  remove_path-below :
      (v w : Value) (n q : Bytes) (ns : List Bytes)
      → remove_path equals v (names (n ∷ (q ∷ ns))) ≡ some w
      → (m : Fields) × (child : Value) × (c : Value) × (v ≡ object m)
        × (get_field n m ≡ some child)
        × (remove_path equals child (names (q ∷ ns)) ≡ some c)
        × (w ≡ object (set_field n c m))
  unfolding remove_path step put
  remove_path-below (array l) w n q ns h = absurd (cc)
  remove_path-below (scalar s) w n q ns h = absurd (cc)
  remove_path-below (object m) w n q ns h = elim (Option-cases (get_field n m)) [
    | inl missing ↦ absurd (ground arith)
    | inr (child, there) ↦ elim (Option-cases (remove_path equals child (names (q ∷ ns)))) [
      | inl not_there ↦ absurd (ground arith)
      | inr (c, r) ↦ (m, child, c, refl, there, r, ground arith)
    ]
  ]

  -- The removal of a path of names takes that path and those below it, and leaves every other path.
  pub has_path-remove_path :
      (v w : Value) (n : Bytes) (ns ms : List Bytes)
      → remove_path equals v (names (n ∷ ns)) ≡ some w
      → has_path equals w (names ms)
        ≡ (has_path equals v (names ms) && not (starts_with ms (n ∷ ns)))
  unfolding has_path step
  has_path-remove_path v w n ns [] h = refl
  has_path-remove_path v w n [] (k ∷ ks) h = removed_field v w n k ks h
  has_path-remove_path v w n (q ∷ ns) (k ∷ ks) h =
      let (m, child, c, e, there, r, f) = remove_path-below v w n q ns h in
      rw (e, f)
        (ground (
          arith,
          get_field-set_field equals n k c m,
          bytes_eq_iff n k,
          has_path-remove_path child c q ns ks r,
        ))
