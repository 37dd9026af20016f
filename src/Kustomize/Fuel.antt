-- ===== src/Kustomize/Fuel.antt =====
-- pkg/kustomize/process.go: the recursion over directories ends, also where they refer to each other.
use kubechecks.Common.{
  ℕ, zero, suc, ◌<◌, Bytes, true, List, [], ◌∷◌, Option, none, some, ◌≡◌, ◌≢◌, refl, inl, inr,
  if◌then◌else◌, Bool-cases, arith,
}
use kubechecks.Kustomize.{
  FileSystem, Kustomization, Opened, not_there, broken, parsed, Outcome, found, failed, out_of_fuel,
  listed, contents, add_found, and_then, process_all, follow, enter, process_dir,
}

-- How many of the directories are not visited.
unfoldable pub left_of : List Bytes → List Bytes → ℕ
left_of [] visited = 0
left_of (d ∷ ds) visited = if listed d visited then left_of ds visited else suc (left_of ds visited)

abbrev pub Within : List Bytes → List Bytes → Type 0
Within xs ys = (x : Bytes) → listed x xs ≡ true → listed x ys ≡ true

Within-cons : (b : Bytes) (v : List Bytes) → Within v (b ∷ v)
unfolding listed
Within-cons b v x h = ground arith

-- A call keeps what is visited.
abbrev pub Keeps : (List Bytes → Bytes → Outcome × List Bytes) → Type 0
Keeps process = (v : List Bytes) (b : Bytes) → Within v (process v b).1

visited-add_found :
    (files dirs : List Bytes) (r : Outcome × List Bytes) → (add_found files dirs r).1 ≡ r.1
unfolding add_found
visited-add_found files dirs (found f d, v) = refl
visited-add_found files dirs (failed, v) = refl
visited-add_found files dirs (out_of_fuel, v) = refl

Within-and_then :
    (v : List Bytes) (r : Outcome × List Bytes) (next : List Bytes → Outcome × List Bytes)
    → Within v r.1
    → ((w : List Bytes) → Within w (next w).1)
    → Within v (and_then r next).1
unfolding and_then
Within-and_then v (found f d, w) next h k x e = rw (visited-add_found f d (next w)) (k w x (h x e))
Within-and_then v (failed, w) next h k x e = h x e
Within-and_then v (out_of_fuel, w) next h k x e = h x e

pub Within-process_all :
    (process : List Bytes → Bytes → Outcome × List Bytes) (v dirs : List Bytes)
    → Keeps process
    → Within v (process_all process v dirs).1
unfolding process_all
Within-process_all process v [] k x e = e
Within-process_all process v (d ∷ dirs) k x e =
    Within-and_then v (process v d) (λ w. process_all process w dirs) (k v d)
      (λ w. Within-process_all process w dirs k) x e

Within-follow :
    (process : List Bytes → Bytes → Outcome × List Bytes) (v : List Bytes)
    (c : Option (List Bytes × List Bytes))
    → Keeps process
    → Within v (follow process v c).1
unfolding follow
Within-follow process v none k x e = e
Within-follow process v (some (files, dirs)) k x e =
    rw (visited-add_found files [] (process_all process v dirs))
      (Within-process_all process v dirs k x e)

Within-enter :
    (fs : FileSystem) (process : List Bytes → Bytes → Outcome × List Bytes) (v : List Bytes)
    (b : Bytes) (o : Opened)
    → Keeps process
    → Within v (enter fs process v b o).1
unfolding enter
Within-enter fs process v b not_there k x e = e
Within-enter fs process v b broken k x e = e
Within-enter fs process v b (parsed kust) k x e = Within-follow process v (contents fs b kust) k x e

pub process_dir-Keeps : (fs : FileSystem) (fuel : ℕ) → Keeps (process_dir fs fuel)
unfolding process_dir
process_dir-Keeps fs zero v b x e = e
process_dir-Keeps fs (suc fuel) v b x e =
    let kept =
      Within-enter fs (process_dir fs fuel) (b ∷ v) b (fs.open_kustomization b)
        (process_dir-Keeps fs fuel) x (Within-cons b v x e) in
    elim (Bool-cases (listed b v)) [
      | inl old ↦ rw (process_dir, old) e
      | inr fresh ↦ rw (process_dir, fresh) kept
    ]

-- The fuel was enough.
abbrev pub Ends : Outcome × List Bytes → Type 0
Ends r = r.0 ≢ out_of_fuel

-- The directories that hold a kustomization are among the known ones.
abbrev pub Knows : FileSystem → List Bytes → Type 0
Knows fs known =
    (b : Bytes) (k : Kustomization) → fs.open_kustomization b ≡ parsed k → listed b known ≡ true

-- A call ends with at most n known directories that are not visited.
abbrev EndsBelow : List Bytes → ℕ → (List Bytes → Bytes → Outcome × List Bytes) → Type 0
EndsBelow known n process = (v : List Bytes) (b : Bytes) → left_of known v < n → Ends (process v b)
