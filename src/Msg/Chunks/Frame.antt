-- ===== src/Msg/Chunks/Frame.antt =====
-- `cutShort` and `frameChunks`: every comment is within the limit of the VCS.
use kubechecks.Common.{
  ℕ, zero, suc, ◌+◌, ◌-◌, ◌≤◌, ◌<◌, max, Bytes, Bool, true, false, List, [], ◌∷◌, ◌++◌, ℤ, pos,
  leb_ℤ, ltb, none, some, ◌-ℤ◌, length, if◌then◌else◌, ◌≡◌, refl, sym, ap, ◌∙◌, ◌⊎◌, inl, inr,
  arith, All, length-append, Bool-cases, Option-cases, leb→le, pos_part, pos_part_sub, take,
  length-take_le,
}
use kubechecks.Msg.Runes.{cut_at_rune, length-cut_at_rune_le}
use kubechecks.Msg.Chunks.{
  ChunkConfig, cut_short_loop, cut_short, cut_closer, cut_short_note, frame_chunk, frame_from,
  frame_chunks, or_no_changes, continued_in, footer_separator, truncated_note, chunk_body,
  chunk_tail, fit_body, split_into_chunks, pack_sections, section_budget,
}
use native.Mathlib.Decide.{dec_le}

-- What the loop returns is within the budget and the note.
length-cut_short_loop :
    (fuel : ℕ) (markdown : Bytes) (budget room : ℕ) (text : Bytes)
    → cut_short_loop fuel markdown budget room ≡ some text
    → length text ≤ budget + length cut_short_note
unfolding cut_short_loop
length-cut_short_loop zero markdown budget room text e = cc
length-cut_short_loop (suc fuel) markdown budget room text e =
    let cut = cut_at_rune markdown (pos room) in
    ground (
      arith,
      length-cut_short_loop fuel markdown budget
          (room - (length cut + length (cut_closer cut) - budget)) text,
      length-append cut (cut_closer cut ++ cut_short_note),
      length-append (cut_closer cut) cut_short_note,
    )

-- The fuel is enough: with more of it than `room`, any two amounts give the same result.
cut_short_loop_enough :
    (fuel fuel' : ℕ) (markdown : Bytes) (budget room : ℕ)
    → room < fuel
    → room < fuel'
    → cut_short_loop fuel markdown budget room ≡ cut_short_loop fuel' markdown budget room
unfolding cut_short_loop
cut_short_loop_enough zero fuel' markdown budget room h h' = absurd (omega arith)
cut_short_loop_enough (suc fuel) zero markdown budget room h h' = absurd (omega arith)
cut_short_loop_enough (suc fuel) (suc fuel') markdown budget room h h' =
    let cut = cut_at_rune markdown (pos room) in
    ground (
      arith,
      cut_short_loop_enough fuel fuel' markdown budget
          (room - (length cut + length (cut_closer cut) - budget)),
    )

cut_short-cases :
    (markdown : Bytes) (max_len : ℤ)
    → let budget = pos_part (max_len -ℤ pos (length cut_short_note)) in
      ((text : Bytes) × (cut_short_loop (suc budget) markdown budget budget ≡ some text)
        × (cut_short markdown max_len ≡ text))
      ⊎ ((cut_short_loop (suc budget) markdown budget budget ≡ none)
          × (cut_short markdown max_len ≡ cut_at_rune markdown max_len))
unfolding cut_short
cut_short-cases markdown max_len =
    elim (Option-cases (
      cut_short_loop (suc (pos_part (max_len -ℤ pos (length cut_short_note)))) markdown
        (pos_part (max_len -ℤ pos (length cut_short_note)))
        (pos_part (max_len -ℤ pos (length cut_short_note))))) [
          | inl e ↦ inr (e, rw (e, cut_short))
          | inr (text, e) ↦ inl (text, e, rw (e, cut_short))
        ]

-- The loop gives no text without room.
loop_no_room :
    (fuel : ℕ) (markdown : Bytes) (budget : ℕ) → cut_short_loop fuel markdown budget 0 ≡ none
unfolding cut_short_loop
loop_no_room zero markdown budget = refl
loop_no_room (suc fuel) markdown budget = refl

-- A text that is cut short is within a limit that is not negative.
pub length-cut_short : (markdown : Bytes) (n : ℕ) → length (cut_short markdown (pos n)) ≤ n
length-cut_short markdown n = elim (cut_short-cases markdown (pos n)) [
  | inl (text, e, c) ↦ rw c (within text (pos_part_sub n (length cut_short_note)) e)
  | inr (e, c) ↦ rw c (length-cut_at_rune_le markdown n)
]
  where
    within :
        {b : ℕ} (text : Bytes)
        → b ≡ n - length cut_short_note
        → cut_short_loop (suc b) markdown b b ≡ some text
        → length text ≤ n
    within {b} text p e = elim (dec_le (length cut_short_note) n) [
      | yes h ↦ omega (arith, length-cut_short_loop (suc b) markdown b b text e)
      | no h ↦
          let zero_room : b ≡ 0 = omega arith in
          absurd (
            no_text (
              sym e
              ∙ ap (λ r. cut_short_loop (suc b) markdown b r) zero_room
              ∙ loop_no_room (suc b) markdown b))
    ]
      where
        no_text : some text ≡ none → ⊥
        no_text q = cc

length-fit_body :
    (n : ℕ) (body tail : Bytes)
    → length tail ≤ n
    → length (fit_body (pos n) body tail) + length tail ≤ n
unfolding fit_body
length-fit_body n body tail h =
    elim (Bool-cases (leb_ℤ (pos (length body + length tail)) (pos n))) [
      | inl fits ↦ rw fits (omega (arith, leb→le _ _ fits))
      | inr long ↦ rw long (omega (arith, shorter))
    ]
  where
    difference : pos n -ℤ pos (length tail) ≡ pos (n - length tail)
    difference = unfold ◌-ℤ◌ in ground arith

    shorter : length (cut_short body (pos n -ℤ pos (length tail))) ≤ n - length tail
    shorter = rw difference (length-cut_short body (n - length tail))

-- Both tails of a comment are within the limit.
abbrev pub TailsFit : ChunkConfig → ℕ → Type 0
TailsFit cfg n =
    (length footer_separator + length cfg.footer + length truncated_note ≤ n)
    × (length continued_in ≤ n)

length-chunk_tail :
    (cfg : ChunkConfig) (truncated : Bool) (total i n : ℕ)
    → TailsFit cfg n
    → length (chunk_tail cfg truncated total i) ≤ n
unfolding chunk_tail
length-chunk_tail cfg true total i n h = ground (
  arith,
  length-append footer_separator (cfg.footer ++ truncated_note),
  length-append cfg.footer truncated_note,
)
length-chunk_tail cfg false total i n h =
    ground (arith, length-append footer_separator (cfg.footer ++ []), length-append cfg.footer [])

length-frame_chunk :
    (cfg : ChunkConfig) (truncated : Bool) (total i : ℕ) (sections : List Bytes) (n : ℕ)
    → cfg.max_length ≡ pos n
    → TailsFit cfg n
    → length (frame_chunk cfg truncated total i sections) ≤ n
unfolding frame_chunk
length-frame_chunk cfg truncated total i sections n e h =
    let tail = chunk_tail cfg truncated total i in
    let body = chunk_body cfg total i sections in
    simp e (
      omega (
        arith,
        length-append (fit_body (pos n) body tail) tail,
        length-fit_body n body tail (length-chunk_tail cfg truncated total i n h),
      ))

frame_from-All :
    (cfg : ChunkConfig) (truncated : Bool) (total i : ℕ) (chunks : List (List Bytes)) (n : ℕ)
    → cfg.max_length ≡ pos n
    → TailsFit cfg n
    → All (λ c. length c ≤ n) (frame_from cfg truncated total i chunks)
unfolding frame_from
frame_from-All cfg truncated total i [] n e h = tt
frame_from-All cfg truncated total i (c ∷ chunks) n e h = (
  length-frame_chunk cfg truncated total i c n e h,
  frame_from-All cfg truncated total (suc i) chunks n e h,
)

length-frame_from :
    (cfg : ChunkConfig) (truncated : Bool) (total i : ℕ) (chunks : List (List Bytes))
    → length (frame_from cfg truncated total i chunks) ≡ length chunks
unfolding frame_from
length-frame_from cfg truncated total i [] = refl
length-frame_from cfg truncated total i (c ∷ chunks) =
    ap suc (length-frame_from cfg truncated total (suc i) chunks)

length-or_no_changes :
    (chunks : List (List Bytes))
    → (1 ≤ length (or_no_changes chunks)) × (length (or_no_changes chunks) ≤ max 1 (length chunks))
unfolding or_no_changes
length-or_no_changes [] = omega arith
length-or_no_changes ([] ∷ []) = omega arith
length-or_no_changes ((s ∷ ss) ∷ []) = omega arith
length-or_no_changes ([] ∷ d ∷ chunks) = omega arith
length-or_no_changes ((s ∷ ss) ∷ d ∷ chunks) = omega arith

pub frame_chunks_bounds :
    (chunks : List (List Bytes)) (truncated : Bool) (cfg : ChunkConfig) (n : ℕ)
    → cfg.max_length ≡ pos n
    → TailsFit cfg n
    → All (λ c. length c ≤ n) (frame_chunks chunks truncated cfg)
      × (1 ≤ length (frame_chunks chunks truncated cfg))
      × (length (frame_chunks chunks truncated cfg) ≤ max 1 (length chunks))
unfolding frame_chunks
frame_chunks_bounds chunks truncated cfg n e h =
    let counted =
      length-frame_from cfg truncated (length (or_no_changes chunks)) 0 (or_no_changes chunks) in
    (
      frame_from-All cfg truncated (length (or_no_changes chunks)) 0 (or_no_changes chunks) n e h,
      rw counted (length-or_no_changes chunks).0,
      rw counted (length-or_no_changes chunks).1,
    )

-- Every report becomes at least one comment and at most as many as the cap allows, and each comment
-- is within the limit of the VCS, whatever the sections are, if the tails alone are within it.
pub split_into_chunks_bounds :
    (sections : List Bytes) (cfg : ChunkConfig) (n : ℕ)
    → cfg.max_length ≡ pos n
    → TailsFit cfg n
    → 1 ≤ cfg.max_chunks
    → All (λ c. length c ≤ n) (split_into_chunks sections cfg)
      × (1 ≤ length (split_into_chunks sections cfg))
      × (length (split_into_chunks sections cfg) ≤ cfg.max_chunks)
unfolding split_into_chunks
split_into_chunks_bounds sections cfg n e h k =
    (bounds.0, bounds.1, omega (arith, bounds.2, shown-le))
  where
    raw : List (List Bytes)
    raw = pack_sections sections (section_budget cfg)

    truncated : Bool
    truncated = ltb cfg.max_chunks (length raw)

    shown : List (List Bytes)
    shown = if truncated then take cfg.max_chunks raw else raw

    shown-le : length shown ≤ cfg.max_chunks
    shown-le = ground (arith, length-take_le cfg.max_chunks raw)

    bounds :
        All (λ c. length c ≤ n) (frame_chunks shown truncated cfg)
        × (1 ≤ length (frame_chunks shown truncated cfg))
        × (length (frame_chunks shown truncated cfg) ≤ max 1 (length shown))
    bounds = frame_chunks_bounds shown truncated cfg n e h
