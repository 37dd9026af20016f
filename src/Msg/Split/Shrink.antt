-- ===== src/Msg/Split/Shrink.antt =====
-- The inner loop of `splitDetailsAtLines`, which shortens a line until it fits.
use kubechecks.Common.{
  ℕ, zero, suc, ◌+◌, ◌-◌, ◌≤◌, ◌<◌, Bytes, [], ◌∷◌, ◌++◌, pos, length, take, ltb, leb, ◌≡◌, refl,
  sym, ap, ◌∙◌, ◌⊎◌, inl, inr, arith, length-append, Bool-cases, leb→le, leb→lt, ltb→le, le→leb,
}
use kubechecks.Msg.Runes.{cut_at_rune, length-cut_at_rune_le, cut_at_rune_boundary}
use kubechecks.Msg.Markdown.{MdState, next, closer_len, line_truncated, next-line_truncated}
use kubechecks.Msg.Split.{shorten, shrink}

-- A line is written whole, or a beginning of it with the marker behind.
abbrev pub Shortened : Bytes → Bytes → Type 0
Shortened line line' = (line' ≡ line) ⊎ ((k : ℕ) × (line' ≡ take k line ++ line_truncated))

length-line_truncated : length line_truncated ≡ 21
unfolding line_truncated
length-line_truncated = refl

-- What `shorten` keeps of a line that was shortened before is a beginning of the line itself.
take-take-append :
    (j k : ℕ) (s t : Bytes) → j ≤ length (take k s) → take j (take k s ++ t) ≡ take j s
take-take-append zero k s t h = refl
take-take-append (suc j) zero s t h = absurd (omega arith)
take-take-append (suc j) (suc k) [] t h = absurd (omega arith)
take-take-append (suc j) (suc k) (c ∷ s) t h =
    ap (λ u. c ∷ u) (take-take-append j k s t (omega arith))

module _ (max_len buf_len : ℕ) where
  -- The line does not fit, and the marker does.
  abbrev pub TooLong : MdState → Bytes → Type 0
  TooLong after line =
      (max_len < length line + buf_len + closer_len after)
      × (buf_len + closer_len after + length line_truncated ≤ max_len)

  length-shorten :
      (after : MdState) (line : Bytes)
      → TooLong after line
      → length (shorten max_len buf_len after line) < length line
  unfolding shorten
  length-shorten after line h =
      let room : ℕ = max_len - buf_len - closer_len after - length line_truncated in
      omega (
        arith,
        length-append (cut_at_rune line (pos room)) line_truncated,
        length-cut_at_rune_le line room,
        length-line_truncated,
      )

  shorten-Shortened :
      (after : MdState) (orig line : Bytes)
      → TooLong after line
      → Shortened orig line
      → Shortened orig (shorten max_len buf_len after line)
  unfolding shorten
  shorten-Shortened after orig line h old = inr (
    length kept,
    ap (λ t. t ++ line_truncated)
        (elim old [
          | inl e ↦ sym bounds.0 ∙ ap (take (length kept)) e
          | inr (k, e) ↦
              sym bounds.0
              ∙ ap (take (length kept)) e
              ∙ take-take-append (length kept) k orig line_truncated (
                  omega (
                    arith,
                    bounds.1,
                    ap length e,
                    length-append (take k orig) line_truncated,
                    length-line_truncated,
                  ))
        ]),
  )
    where
      room : ℕ
      room = max_len - buf_len - closer_len after - length line_truncated

      kept : Bytes
      kept = cut_at_rune line (pos room)

      bounds : (take (length kept) line ≡ kept) × (length kept ≤ room)
      bounds = ((cut_at_rune_boundary line room).0, (cut_at_rune_boundary line room).1)

  -- How the loop ends: the line fits, or the marker stands alone and the state is the old one.
  abbrev pub Ends : MdState → Bytes × MdState → Type 0
  Ends state (line, after) =
      (length line + buf_len + closer_len after ≤ max_len)
      ⊎ ((line ≡ line_truncated) × (after ≡ state))

  -- With more fuel than the line has bytes the loop ends by one of its two tests; what it writes is
  -- the line or a shortened line, and the state behind it is the state that it leads to.
  pub shrink_lem :
      (fuel : ℕ) (state : MdState) (orig line : Bytes) (after : MdState)
      → length line < fuel
      → after ≡ next state line
      → Shortened orig line
      → Ends state (shrink fuel max_len buf_len state line after)
        × Shortened orig (shrink fuel max_len buf_len state line after).0
        × ((shrink fuel max_len buf_len state line after).1
            ≡ next state (shrink fuel max_len buf_len state line after).0)
  unfolding shrink
  shrink_lem zero state orig line after f e old = absurd (omega arith)
  shrink_lem (suc fuel) state orig line after f e old =
      elim (Bool-cases (leb (length line + buf_len + closer_len after) max_len)) [
        | inl fits ↦ rw fits (inl (leb→le _ _ fits), old, e)
        | inr long ↦
            elim (Bool-cases (ltb max_len (buf_len + closer_len after + length line_truncated))) [
              | inl narrow ↦
                  rw (long, narrow)
                    (inr (refl, refl), inr (0, refl), sym (next-line_truncated state))
              | inr wide ↦
                  let h : TooLong after line = (leb→lt _ _ long, ltb→le _ _ wide) in
                  rw (long, wide)
                    (shrink_lem fuel state orig (shorten max_len buf_len after line)
                      (next state (shorten max_len buf_len after line))
                      (omega (arith, length-shorten after line h)) refl
                      (shorten-Shortened after orig line h old))
            ]
      ]

  -- A line that fits is not touched.
  pub shrink_fits :
      (fuel : ℕ) (state : MdState) (line : Bytes) (after : MdState)
      → length line + buf_len + closer_len after ≤ max_len
      → shrink (suc fuel) max_len buf_len state line after ≡ (line, after)
  unfolding shrink
  shrink_fits fuel state line after h = rw (le→leb _ _ h)
