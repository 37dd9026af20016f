-- ===== src/AppDir/Union.antt =====
-- pkg/appdir/app_directory.go: what `Union` holds at a key.
use kubechecks.Common.{
  Bytes, Bool, true, false, ◌&&◌, List, [], ◌∷◌, Option, none, some, ◌≡◌, lookup, insert,
  lookup-insert, bytes_eq_iff, bytes_instance, arith, Option-cases, inl, inr,
}
use kubechecks.AppDir.{merge_maps}

abbrev absent {ℓ} : {A : Type ℓ} → Bytes → List (Bytes × A) → Bool
absent k m = elim (lookup k m) [ none ↦ true | some v ↦ false ]

-- A list that stands for a map has every key once.
abbrev pub is_map {ℓ} : {A : Type ℓ} → List (Bytes × A) → Bool
is_map [] = true
is_map ((k, v) ∷ m) = absent k m && is_map m

abbrev pub combined {ℓ} : {A : Type ℓ} → (A → A → A) → Option A → Option A → Option A
combined combine none o = o
combined combine (some a) none = some a
combined combine (some a) (some b) = some (combine a b)

-- The merged map holds at each key the combination of what the two maps hold there, if both do, and
-- else what one of them holds; each key of the second stands in it once.
pub lookup-merge_maps {ℓ} :
    {A : Type ℓ} (combine : A → A → A) (first second : List (Bytes × A)) (k : Bytes)
    → is_map second ≡ true
    → lookup k (merge_maps combine first second)
      ≡ combined combine (lookup k first) (lookup k second)
unfolding merge_maps lookup
lookup-merge_maps combine first [] k h = ground arith
lookup-merge_maps {A = A} combine first ((j, v) ∷ second) k h =
    let tail = λ (w : A). lookup-merge_maps combine (insert j w first) second k (ground arith) in
    elim (Option-cases (lookup j first)) [
      | inl missing ↦ ground (arith, tail v, lookup-insert j k v first, bytes_eq_iff j k)
      | inr (w, found) ↦
          ground
            (arith, tail (combine w v), lookup-insert j k (combine w v) first, bytes_eq_iff j k)
    ]
