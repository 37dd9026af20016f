-- ===== src/Kustomize/Results.antt =====
-- pkg/kustomize/process.go: what holds of the results of calls, joined.
use kubechecks.Common.{
  Bytes, true, false, ◌||◌, List, [], ◌∷◌, ◌++◌, Option, some, ◌≡◌, refl, bytes_eq_iff, arith,
}
use kubechecks.Kustomize.{Outcome, found, failed, out_of_fuel, listed, add_found, and_then}
use kubechecks.Kustomize.Fuel.{Within}

-- What holds of the files, the directories and the visited directories of a result, if there is one.
abbrev pub Holds : (List Bytes → List Bytes → List Bytes → Type 0) → Outcome × List Bytes → Type 0
Holds P (found files dirs, visited) = P files dirs visited
Holds P (failed, visited) = Unit
Holds P (out_of_fuel, visited) = Unit

pub Holds-add_found :
    (P Q : List Bytes → List Bytes → List Bytes → Type 0) (files dirs : List Bytes)
    (r : Outcome × List Bytes)
    → Holds P r
    → ((f d v : List Bytes) → P f d v → Q (files ++ f) (dirs ++ d) v)
    → Holds Q (add_found files dirs r)
unfolding add_found
Holds-add_found P Q files dirs (found f d, v) h k = k f d v h
Holds-add_found P Q files dirs (failed, v) h k = tt
Holds-add_found P Q files dirs (out_of_fuel, v) h k = tt

pub Holds-and_then :
    (P Q : List Bytes → List Bytes → List Bytes → Type 0) (r : Outcome × List Bytes)
    (next : List Bytes → Outcome × List Bytes)
    → Holds P r
    → ((f d v : List Bytes) → P f d v → Holds (λ f' d' v'. Q (f ++ f') (d ++ d') v') (next v))
    → Holds Q (and_then r next)
unfolding and_then
Holds-and_then P Q (found f d, v) next h k =
    Holds-add_found (λ f' d' v'. Q (f ++ f') (d ++ d') v') Q f d (next v) (k f d v h)
      (λ f' d' v' q. q)
Holds-and_then P Q (failed, v) next h k = tt
Holds-and_then P Q (out_of_fuel, v) next h k = tt

pub Holds-map :
    (P Q : List Bytes → List Bytes → List Bytes → Type 0) (r : Outcome × List Bytes)
    → Holds P r
    → ((f d v : List Bytes) → P f d v → Q f d v)
    → Holds Q r
Holds-map P Q (found f d, v) h k = k f d v h
Holds-map P Q (failed, v) h k = tt
Holds-map P Q (out_of_fuel, v) h k = tt

pub listed-append :
    (x : Bytes) (xs ys : List Bytes) → listed x (xs ++ ys) ≡ (listed x xs || listed x ys)
unfolding listed
listed-append x [] ys = refl
listed-append x (y ∷ xs) ys = ground (arith, listed-append x xs ys)

pub Within-left : (xs ys zs : List Bytes) → Within xs ys → Within xs (ys ++ zs)
Within-left xs ys zs h x e = ground (arith, h x e, listed-append x ys zs)

pub Within-right : (xs ys zs : List Bytes) → Within xs zs → Within xs (ys ++ zs)
Within-right xs ys zs h x e = ground (arith, h x e, listed-append x ys zs)

pub listed_nothing : (x : Bytes) → listed x [] ≡ true → ⊥
unfolding listed
listed_nothing x e = ground arith

pub listed_head :
    (b : Bytes) (v : List Bytes) (x : Bytes) → listed x (b ∷ []) ≡ true → listed x (b ∷ v) ≡ true
unfolding listed
listed_head b v x e = ground arith

pub listed_tail :
    (b : Bytes) (v : List Bytes) (x : Bytes) → listed x v ≡ true → listed x (b ∷ v) ≡ true
unfolding listed
listed_tail b v x e = ground arith

pub listed_later :
    (b : Bytes) (v : List Bytes) (x : Bytes)
    → listed x (b ∷ v) ≡ true
    → listed x (b ∷ []) ≡ false
    → listed x v ≡ true
unfolding listed
listed_later b v x e h = ground arith

pub listed_new :
    (b : Bytes) (v : List Bytes) (x : Bytes) → listed x (b ∷ v) ≡ true → listed x v ≡ false → b ≡ x
unfolding listed
listed_new b v x e h = ground (arith, bytes_eq_iff b x)

pub listed_one : (b x : Bytes) → b ≡ x → listed x (b ∷ []) ≡ true
unfolding listed
listed_one b x h = ground (arith, bytes_eq_iff b x)

pub listed_same : (b x : Bytes) → listed x (b ∷ []) ≡ true → b ≡ x
unfolding listed
listed_same b x h = ground (arith, bytes_eq_iff b x)

pub same_pair :
    (o : Option (List Bytes × List Bytes)) (a b a' b' : List Bytes)
    → o ≡ some (a, b)
    → o ≡ some (a', b')
    → (a ≡ a') × (b ≡ b')
same_pair o a b a' b' h h' = (cc, cc)
