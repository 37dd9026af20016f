-- ===== src/Msg/Runes.antt =====
-- pkg/msg/message.go, `cutAtRune`: a text is cut in front of a rune, never inside one.
use kubechecks.Common.{
  ℕ, zero, suc, ◌/◌, ◌≤◌, ◌<◌, Bytes, Bool, true, false, not, ◌≡◌, refl, ◌⊎◌, inl, inr, [], ◌++◌, ℤ,
  pos, negsuc, pos_part, leb_ℤ, length, take, drop, get_or, if◌then◌else◌, ◌==◌, arith,
  length-take_le, take-append-drop, length-take, Bool-cases, append-nil, take-length, ==_iff, ap,
}

-- `utf8.RuneStart(b)`, which is `b&0xC0 != 0x80` for a byte
unfoldable pub rune_start : ℕ → Bool
rune_start b = not (b / 64 == 2)

-- `for n > 0 && !utf8.RuneStart(s[n]) { n-- }`
unfoldable pub back_up : Bytes → ℕ → ℕ
back_up s zero = zero
back_up s (suc n) = if rune_start (get_or s (suc n) 0) then suc n else back_up s n

unfoldable pub cut_at_rune : Bytes → ℤ → Bytes
unfolding back_up
cut_at_rune s n = if leb_ℤ (pos (length s)) n then s else take (back_up s (pos_part n)) s

pub back_up-le : (s : Bytes) (n : ℕ) → back_up s n ≤ n
unfolding back_up
back_up-le s zero = omega arith
back_up-le s (suc n) = ground (arith, back_up-le s n)

back_up-start :
    (s : Bytes) (n : ℕ) → (back_up s n ≡ 0) ⊎ (rune_start (get_or s (back_up s n) 0) ≡ true)
unfolding back_up
back_up-start s zero = inl refl
back_up-start s (suc n) = elim (Bool-cases (rune_start (get_or s (suc n) 0))) [
  | inl h ↦ inr (rw (h, back_up) h)
  | inr h ↦ rw (h, back_up) (back_up-start s n)
]

-- No start of a rune up to the limit is passed over.
back_up-last : (s : Bytes) (n k : ℕ) → back_up s n < k → k ≤ n → rune_start (get_or s k 0) ≡ false
unfolding back_up
back_up-last s zero k h i = absurd (omega arith)
back_up-last s (suc n) k h i = elim (Bool-cases (rune_start (get_or s (suc n) 0))) [
  | inl e ↦ absurd (omega (arith, rw (e, back_up) at h))
  | inr e ↦ elim (Bool-cases (k == suc n)) [
    | inl same ↦ rw ((==_iff k (suc n)).0 same) e
    | inr other ↦ back_up-last s n k (rw (e, back_up) at h) (ground arith)
  ]
]

-- A text that is not longer than the limit is kept; a longer one is cut.
cut_at_rune-cases :
    (s : Bytes) (n : ℕ)
    → ((length s ≤ n) × (cut_at_rune s (pos n) ≡ s))
      ⊎ ((n < length s) × (cut_at_rune s (pos n) ≡ take (back_up s n) s))
unfolding cut_at_rune
cut_at_rune-cases s n = ground arith

-- A limit below zero cuts everything.
pub cut_at_rune-negsuc : (s : Bytes) (n : ℕ) → cut_at_rune s (negsuc n) ≡ []
unfolding cut_at_rune back_up
cut_at_rune-negsuc s n = ground arith

-- For a limit that is not negative the cut text is within it.
pub length-cut_at_rune_le : (s : Bytes) (n : ℕ) → length (cut_at_rune s (pos n)) ≤ n
unfolding cut_at_rune
length-cut_at_rune_le s n = ground (arith, length-take_le (back_up s n) s, back_up-le s n)

-- Nor is it longer than the text.
pub length-cut_at_rune_self : (s : Bytes) (n : ℤ) → length (cut_at_rune s n) ≤ length s
unfolding cut_at_rune
length-cut_at_rune_self s n = ground (arith, length-take (back_up s (pos_part n)) s)

-- The cut text is a beginning of the text: what is cut off can be put back.
pub cut_at_rune-prefix : (s : Bytes) (n : ℤ) → (rest : Bytes) × (cut_at_rune s n ++ rest ≡ s)
unfolding cut_at_rune
cut_at_rune-prefix s n = elim (Bool-cases (leb_ℤ (pos (length s)) n)) [
  | inl e ↦ ([], rw e (append-nil s))
  | inr e ↦ (drop (back_up s (pos_part n)) s, rw e (take-append-drop (back_up s (pos_part n)) s))
]

-- With a limit of `n` bytes the cut text is a beginning of the text of at most `n` bytes, and it is
-- the whole text, or empty, or the byte behind it starts a rune.
pub cut_at_rune_boundary :
    (s : Bytes) (n : ℕ)
    → (take (length (cut_at_rune s (pos n))) s ≡ cut_at_rune s (pos n))
      × (length (cut_at_rune s (pos n)) ≤ n)
      × ((cut_at_rune s (pos n) ≡ s)
          ⊎ (length (cut_at_rune s (pos n)) ≡ 0)
          ⊎ (rune_start (get_or s (length (cut_at_rune s (pos n))) 0) ≡ true))
cut_at_rune_boundary s n = elim (cut_at_rune-cases s n) [
  | inl (h, e) ↦ rw e (take-length (length s) s (omega arith), h, inl refl)
  | inr (h, e) ↦
      let k : length (take (back_up s n) s) ≡ back_up s n =
        omega (arith, length-take (back_up s n) s, back_up-le s n) in
      rw (e, k) (refl, back_up-le s n, inr (back_up-start s n))
]

-- The cut text is as long as it can be: no byte behind its end, up to the limit, starts a rune.
cut_at_rune_longest :
    (s : Bytes) (n j : ℕ)
    → length (cut_at_rune s (pos n)) < j
    → j ≤ n
    → j < length s
    → rune_start (get_or s j 0) ≡ false
cut_at_rune_longest s n j shorter within inside = elim (cut_at_rune-cases s n) [
  | inl (h, e) ↦ absurd (omega (arith, ap length e))
  | inr (h, e) ↦
      back_up-last s n j (omega (arith, ap length e, length-take (back_up s n) s, back_up-le s n))
        within
]
