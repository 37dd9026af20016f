-- ===== src/Archive/Urls/Parts.antt =====
-- pkg/archive/manager.go: texts that are split at the first place where a separator stands.
use kubechecks.Common.{
  ℕ, ◌≤◌, Bytes, true, false, ◌&&◌, [], ◌∷◌, ◌++◌, ◌≡◌, ◌≢◌, refl, sym, ap, ◌∙◌, has_prefix,
  contains, length, drop_last, All, append_assoc, length-append, length-drop_last, arith, ◌==◌,
}
use kubechecks.Archive.Urls.{split_skipping, split, before}

has_prefix-append : (s r p : Bytes) → length p ≤ length s → has_prefix (s ++ r) p ≡ has_prefix s p
has_prefix-append s r [] h = ground arith
has_prefix-append [] r (b ∷ p) h = absurd (omega arith)
has_prefix-append (a ∷ s) r (b ∷ p) h =
    ap (λ t. a == b && t) (has_prefix-append s r p (omega arith))

pub has_prefix_self : (p r : Bytes) → has_prefix (p ++ r) p ≡ true
has_prefix_self [] r = ground arith
has_prefix_self (b ∷ p) r = ground (arith, has_prefix_self p r)

pub contains-append : (base sep rest : Bytes) → contains (base ++ (sep ++ rest)) sep ≡ true
contains-append [] [] [] = refl
contains-append [] [] (b ∷ rest) = refl
contains-append [] (b ∷ sep) rest = ground (arith, has_prefix_self (b ∷ sep) rest)
contains-append (a ∷ base) sep rest = ground (arith, contains-append base sep rest)

-- No separator begins in the text before its end.
abbrev pub Late : Bytes → Bytes → Type 0
Late base sep = contains (base ++ drop_last sep) sep ≡ false

drop_last_snoc : (b : ℕ) (s : Bytes) → (c : ℕ) × (b ∷ s ≡ drop_last (b ∷ s) ++ c ∷ [])
drop_last_snoc b [] = (b, refl)
drop_last_snoc b (c ∷ s) = let (d, e) = drop_last_snoc c s in (d, ap (λ t. b ∷ t) e)

length-drop_last_le : (a : ℕ) (base sep : Bytes) → length sep ≤ length ((a ∷ base) ++ drop_last sep)
length-drop_last_le a base [] = omega arith
length-drop_last_le a base (b ∷ sep) =
    ground (arith, length-append base (drop_last (b ∷ sep)), length-drop_last (b ∷ sep))

shifted :
    (base sep kept rest : Bytes) (c : ℕ)
    → sep ≡ kept ++ c ∷ []
    → base ++ (sep ++ rest) ≡ (base ++ kept) ++ c ∷ rest
shifted base sep kept rest c e =
    rw (e, append_assoc kept (c ∷ []) rest) (sym (append_assoc base kept (c ∷ rest)))

has_prefix-late :
    (a : ℕ) (base sep rest : Bytes)
    → has_prefix ((a ∷ base) ++ (sep ++ rest)) sep ≡ has_prefix ((a ∷ base) ++ drop_last sep) sep
has_prefix-late a base [] rest = refl
has_prefix-late a base (b ∷ sep) rest =
    let (c, e) = drop_last_snoc b sep in
    let kept = (a ∷ base) ++ drop_last (b ∷ sep) in
    ap (λ t. has_prefix t (b ∷ sep)) (shifted (a ∷ base) (b ∷ sep) (drop_last (b ∷ sep)) rest c e)
    ∙ has_prefix-append kept (c ∷ rest) (b ∷ sep) (length-drop_last_le a base (b ∷ sep))

split_skipping-append :
    (sep s rest : Bytes) → split_skipping sep (length s) (s ++ rest) ≡ split_skipping sep 0 rest
unfolding split_skipping
split_skipping-append sep [] rest = refl
split_skipping-append sep (a ∷ s) rest = split_skipping-append sep s rest

-- A text is split where the separator stands first.
pub split-append :
    (base : Bytes) (b : ℕ) (sep rest : Bytes)
    → Late base (b ∷ sep)
    → split (base ++ ((b ∷ sep) ++ rest)) (b ∷ sep) ≡ base ∷ split rest (b ∷ sep)
unfolding split split_skipping
split-append [] b sep rest h =
    ground (arith, has_prefix_self (b ∷ sep) rest, split_skipping-append (b ∷ sep) sep rest)
split-append (a ∷ base) b sep rest h =
    ground (arith, has_prefix-late a base (b ∷ sep) rest, split-append base b sep rest)

pub split_single : (s sep : Bytes) → contains s sep ≡ false → split s sep ≡ s ∷ []
unfolding split split_skipping
split_single [] sep h = refl
split_single (a ∷ s) sep h = ground (arith, split_single s sep)

-- A byte does not stand in a text.
abbrev pub Without : ℕ → Bytes → Type 0
Without c s = All (λ b. b ≢ c) s

pub contains-Without : (c : ℕ) (sep s : Bytes) → Without c s → contains s (c ∷ sep) ≡ false
contains-Without c sep [] h = refl
contains-Without c sep (b ∷ s) h = ground (arith, contains-Without c sep s h.1)

pub before-append : (c : ℕ) (s rest : Bytes) → Without c s → before c (s ++ c ∷ rest) ≡ s
unfolding before
before-append c [] rest h = ground arith
before-append c (b ∷ s) rest h = ground (arith, before-append c s rest h.1)

pub before_all : (c : ℕ) (s : Bytes) → Without c s → before c s ≡ s
unfolding before
before_all c [] h = refl
before_all c (b ∷ s) h = ground (arith, before_all c s h.1)
