-- ===== src/AppSets/Copies.antt =====
-- pkg/appdir/appset_directory.go: names that are appended at some keys of a map and dropped again.
use kubechecks.Common.{
  ℕ, zero, suc, ◌+◌, ◌-◌, ◌≤◌, Bytes, false, List, [], ◌∷◌, ◌++◌, lookup-insert, insert, bytes_eq,
  bytes_instance, beq_refl, if◌then◌else◌, ◌≡◌, refl, arith, sym, ap, ◌∙◌, append_assoc, append-nil,
  key-cases, Bool-cases, inl, inr,
}
use kubechecks.AppDir.{names_at, remove_from_slice}
use kubechecks.AppDir.Matching.{has_name}
use kubechecks.AppSets.{append_all, drop_all}

abbrev copies : ℕ → Bytes → List Bytes
copies zero name = []
copies (suc n) name = name ∷ copies n name

abbrev pub count : Bytes → List Bytes → ℕ
count k [] = 0
count k (j ∷ js) = if bytes_eq j k then suc (count k js) else count k js

copies-suc : (n : ℕ) (name : Bytes) → copies n name ++ name ∷ [] ≡ copies (suc n) name
copies-suc zero name = refl
copies-suc (suc n) name = ap (λ t. name ∷ t) (copies-suc n name)

names_at-insert :
    (k j : Bytes) (names : List Bytes) (m : List (Bytes × List Bytes))
    → names_at j (insert k names m) ≡ (if bytes_eq k j then names else names_at j m)
unfolding names_at
names_at-insert k j names m = ground (arith, lookup-insert k j names m)

-- The first of the names behind a list without the name is dropped.
remove_from_slice-copies :
    (l : List Bytes) (name : Bytes) (n : ℕ)
    → has_name name l ≡ false
    → remove_from_slice (l ++ copies n name) name ≡ l ++ copies (n - 1) name
unfolding remove_from_slice
remove_from_slice-copies [] name zero h = refl
remove_from_slice-copies [] name (suc n) h =
    rw (beq_refl name) (ap (λ t. copies t name) (omega arith))
remove_from_slice-copies (x ∷ l) name n h = elim (Bool-cases (bytes_eq x name)) [
  | inl e ↦ absurd (ground arith)
  | inr e ↦ rw e (ap (λ t. x ∷ t) (remove_from_slice-copies l name n (ground arith)))
]

-- After additions at some keys.
names_at-append_all :
    (name k : Bytes) (keys : List Bytes) (m : List (Bytes × List Bytes)) (l : List Bytes) (n : ℕ)
    → names_at k m ≡ l ++ copies n name
    → names_at k (append_all name keys m) ≡ l ++ copies (n + count k keys) name
unfolding append_all
names_at-append_all name k [] m l n h = h ∙ ap (λ t. l ++ copies t name) (omega arith)
names_at-append_all name k (j ∷ js) m l n h =
    let more = names_at j m ++ name ∷ [] in
    elim (key-cases j k) [
      | inl (same, test) ↦
          let added : names_at k (insert j more m) ≡ l ++ copies (suc n) name =
            names_at-insert j k more m
            ∙ rw test refl
            ∙ ap (λ t. names_at t m ++ name ∷ []) same
            ∙ ap (λ t. t ++ name ∷ []) h
            ∙ append_assoc l (copies n name) (name ∷ [])
            ∙ ap (λ t. l ++ t) (copies-suc n name) in
          names_at-append_all name k js (insert j more m) l (suc n) added
          ∙ ap (λ t. l ++ copies t name) (ground arith)
      | inr (differ, test) ↦
          names_at-append_all name k js (insert j more m) l n
            (names_at-insert j k more m ∙ rw test h)
          ∙ ap (λ t. l ++ copies t name) (ground arith)
    ]

names_at-drop_all :
    (name k : Bytes) (keys : List Bytes) (m : List (Bytes × List Bytes)) (l : List Bytes) (n : ℕ)
    → has_name name l ≡ false
    → names_at k m ≡ l ++ copies n name
    → names_at k (drop_all name keys m) ≡ l ++ copies (n - count k keys) name
unfolding drop_all
names_at-drop_all name k [] m l n u h = h ∙ ap (λ t. l ++ copies t name) (omega arith)
names_at-drop_all name k (j ∷ js) m l n u h =
    let fewer = remove_from_slice (names_at j m) name in
    elim (key-cases j k) [
      | inl (same, test) ↦
          let dropped : names_at k (insert j fewer m) ≡ l ++ copies (n - 1) name =
            names_at-insert j k fewer m
            ∙ rw test refl
            ∙ ap (λ t. remove_from_slice (names_at t m) name) same
            ∙ ap (λ t. remove_from_slice t name) h
            ∙ remove_from_slice-copies l name n u in
          names_at-drop_all name k js (insert j fewer m) l (n - 1) u dropped
          ∙ ap (λ t. l ++ copies t name) (ground arith)
      | inr (differ, test) ↦
          names_at-drop_all name k js (insert j fewer m) l n u
            (names_at-insert j k fewer m ∙ rw test h)
          ∙ ap (λ t. l ++ copies t name) (ground arith)
    ]

-- Where a name was appended, dropping it at least as often restores what was there.
pub restored :
    (name k : Bytes) (keys dropped : List Bytes) (m : List (Bytes × List Bytes))
    → has_name name (names_at k m) ≡ false
    → count k keys ≤ count k dropped
    → names_at k (drop_all name dropped (append_all name keys m)) ≡ names_at k m
restored name k keys dropped m u b =
    let l = names_at k m in
    let none_left : count k keys - count k dropped ≡ 0 = omega arith in
    names_at-drop_all name k dropped (append_all name keys m) l (count k keys) u (
      names_at-append_all name k keys m l 0 (sym (append-nil l))
      ∙ ap (λ t. l ++ copies t name) (omega arith))
    ∙ ap (λ t. l ++ copies t name) none_left
    ∙ append-nil l

pub count-append : (k : Bytes) (xs ys : List Bytes) → count k (xs ++ ys) ≡ count k xs + count k ys
count-append k [] ys = omega arith
count-append k (x ∷ xs) ys = ground (arith, count-append k xs ys)

pub append_all-append :
    (name : Bytes) (xs ys : List Bytes) (m : List (Bytes × List Bytes))
    → append_all name (xs ++ ys) m ≡ append_all name ys (append_all name xs m)
unfolding append_all
append_all-append name [] ys m = refl
append_all-append name (x ∷ xs) ys m = append_all-append name xs ys _

pub drop_all-append :
    (name : Bytes) (xs ys : List Bytes) (m : List (Bytes × List Bytes))
    → drop_all name (xs ++ ys) m ≡ drop_all name ys (drop_all name xs m)
unfolding drop_all
drop_all-append name [] ys m = refl
drop_all-append name (x ∷ xs) ys m = drop_all-append name xs ys _
