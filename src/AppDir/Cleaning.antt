-- ===== src/AppDir/Cleaning.antt =====
-- pkg/appdir/app_directory.go: a cleaned path is no longer than the path.
use kubechecks.Common.{
  ℕ, suc, ◌+◌, ◌-◌, ◌≤◌, Bytes, codes, Bool, true, false, List, [], ◌∷◌, ◌++◌, reverse, ◌≡◌, refl,
  ap, ◌∙◌, length, length-append, has_prefix, bytes_eq, bytes_eq_iff, ◌==◌, List-cases, Bool-cases,
  inl, inr, arith,
}
use mathlib.Core.List.{reverse-cons}
use kubechecks.AppDir.{elements, clean_step, clean_stack, join_path, clean}

-- The bytes of the elements, each with a slash.
size_of : List Bytes → ℕ
size_of [] = 0
size_of (e ∷ es) = suc (length e + size_of es)

size_of_nothing : size_of [] ≡ 0
unfolding size_of
size_of_nothing = refl

size_of-append : (a b : List Bytes) → size_of (a ++ b) ≡ size_of a + size_of b
unfolding size_of
size_of-append [] b = omega arith
size_of-append (e ∷ a) b = omega (arith, size_of-append a b)

size_of-reverse : (es : List Bytes) → size_of (reverse es) ≡ size_of es
unfolding size_of
size_of-reverse [] = refl
size_of-reverse (e ∷ es) =
    ap size_of (reverse-cons e es)
    ∙ omega (arith, size_of-append (reverse es) (e ∷ []), size_of-reverse es)

pub length-reverse : (s : Bytes) → length (reverse s) ≡ length s
length-reverse [] = refl
length-reverse (b ∷ s) =
    ap length (reverse-cons b s)
    ∙ omega (arith, length-append (reverse s) (b ∷ []), length-reverse s)

size_of-elements : (cur s : Bytes) → size_of (elements cur s) ≡ suc (length cur + length s)
unfolding size_of elements
size_of-elements cur [] = omega (arith, length-reverse cur)
size_of-elements cur (b ∷ s) =
    ground (arith, length-reverse cur, size_of-elements [] s, size_of-elements (b ∷ cur) s)

size_of-clean_step :
    (rooted : Bool) (stack : List Bytes) (e : Bytes)
    → size_of (clean_step rooted stack e) ≤ suc (length e + size_of stack)
unfolding size_of clean_step
size_of-clean_step rooted [] e = ground arith
size_of-clean_step rooted (top ∷ rest) e = ground arith

size_of-clean_stack :
    (rooted : Bool) (stack es : List Bytes)
    → size_of (clean_stack rooted stack es) ≤ size_of stack + size_of es
unfolding size_of clean_stack
size_of-clean_stack rooted stack [] = omega arith
size_of-clean_stack rooted stack (e ∷ es) = omega (
  arith,
  size_of-clean_step rooted stack e,
  size_of-clean_stack rooted (clean_step rooted stack e) es,
)

length-join_path : (es : List Bytes) → length (join_path es) ≤ size_of es - 1
unfolding size_of join_path
length-join_path [] = omega arith
length-join_path (e ∷ []) = omega arith
length-join_path (e ∷ (f ∷ es)) =
    omega (arith, length-append e (47 ∷ join_path (f ∷ es)), length-join_path (f ∷ es))

-- What is joined of the elements of a text is no longer than the text.
length_body :
    (rooted : Bool) (s : Bytes)
    → length (join_path (reverse (clean_stack rooted [] (elements [] s)))) ≤ length s
length_body rooted s =
    let stack = clean_stack rooted [] (elements [] s) in
    omega (
      arith,
      length-join_path (reverse stack),
      size_of-reverse stack,
      size_of-clean_stack rooted [] (elements [] s),
      size_of-elements [] s,
      size_of_nothing,
    )

length_rooted :
    (b : ℕ) (s : Bytes)
    → (b == 47) ≡ true
    → length (join_path (reverse (clean_stack true [] (elements [] (b ∷ s))))) ≤ length s
unfolding elements clean_stack clean_step bytes_eq
length_rooted b s h = rw (elements, h) (length_body true s)

pub length-clean : (b : ℕ) (s : Bytes) → length (clean (b ∷ s)) ≤ suc (length s)
unfolding clean
length-clean b s = elim (Bool-cases (b == 47)) [
  | inl rooted ↦ ground (arith, length_rooted b s)
  | inr relative ↦ ground (arith, length_body false (b ∷ s))
]

pub length-clean_least : (s : Bytes) → 1 ≤ length (clean s)
unfolding clean
length-clean_least s =
    let rooted = has_prefix s (codes "/") in
    let body = join_path (reverse (clean_stack rooted [] (elements [] s))) in
    elim (List-cases body) [
      | inl nothing ↦ ground (arith, bytes_eq_iff body [])
      | inr (b, rest, some_body) ↦ ground (arith, bytes_eq_iff body [])
    ]

elements-snoc : (cur s : Bytes) → elements cur (s ++ 47 ∷ []) ≡ elements cur s ++ [] ∷ []
unfolding elements
elements-snoc cur [] = refl
elements-snoc cur (b ∷ s) = ground (arith, elements-snoc [] s, elements-snoc (b ∷ cur) s)

clean_stack-snoc :
    (rooted : Bool) (stack es : List Bytes)
    → clean_stack rooted stack (es ++ [] ∷ []) ≡ clean_stack rooted stack es
unfolding clean_stack clean_step bytes_eq
clean_stack-snoc rooted stack [] = refl
clean_stack-snoc rooted stack (e ∷ es) = clean_stack-snoc rooted (clean_step rooted stack e) es

-- A slash at the end is dropped.
pub clean-snoc : (b : ℕ) (s : Bytes) → clean ((b ∷ s) ++ 47 ∷ []) ≡ clean (b ∷ s)
unfolding clean
clean-snoc b s =
    let rooted = has_prefix (b ∷ s) (codes "/") in
    let same =
      ap (clean_stack rooted []) (elements-snoc [] (b ∷ s))
      ∙ clean_stack-snoc rooted [] (elements [] (b ∷ s)) in
    rw same refl

pub clean_nothing : clean [] ≡ codes "."
unfolding clean elements clean_stack clean_step join_path bytes_eq
clean_nothing = refl

pub clean_slash : clean (47 ∷ []) ≡ codes "/"
unfolding clean elements clean_stack clean_step join_path bytes_eq
clean_slash = refl
