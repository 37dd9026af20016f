-- ===== src/Msg/Chunks/Uncut.antt =====
-- The budget for sections leaves room for every header and tail: a report whose sections are within
-- it is never cut short.
use kubechecks.Common.{
  ℕ, zero, suc, ◌+◌, ◌≤◌, ◌<◌, max, Bytes, Bool, List, [], ◌∷◌, ◌++◌, ℤ, pos, ltb, ◌==◌, ◌-ℤ◌, take,
  take-length, length, concat, if◌then◌else◌, ◌≡◌, ◌≢◌, refl, sym, ap, ◌∙◌, ◌⊎◌, inl, inr, arith,
  All, length-append, ◌≤ℤ◌, Bool-cases, ltb→le, le→leb, pos_part, neg_part, itoa, length-itoa_3,
  codes, subst, le_sub, length-take_le,
}
use kubechecks.Msg.Chunks.{
  ChunkConfig, chunk_header, chunk_body, chunk_tail, fit_body, frame_chunk, frame_from,
  frame_chunks, or_no_changes, continued_from, continued_in, footer_separator, truncated_note,
  section_budget, split_into_chunks, pack_sections, total_length, max_comments_per_check,
}
use kubechecks.Msg.Chunks.Pack.{IsChunk, Within, pack_sections_lem}

-- The comments with nothing cut: header, sections, tail.
unfoldable pub uncut_from : ChunkConfig → Bool → ℕ → ℕ → List (List Bytes) → List Bytes
uncut_from cfg truncated total i [] = []
uncut_from cfg truncated total i (c ∷ chunks) =
    (chunk_body cfg total i c ++ chunk_tail cfg truncated total i)
    ∷ uncut_from cfg truncated total (suc i) chunks

length-concat : (c : List Bytes) → length (concat c) ≡ total_length c
unfolding total_length
length-concat [] = omega arith
length-concat (s ∷ c) = omega (arith, length-append s (concat c), length-concat c)

itoa_999 : length (itoa 999) ≡ 3
unfolding itoa
itoa_999 = refl

numbered : ℕ → ℕ → Bytes
numbered part total =
    codes " Report (Part " ++ (itoa part ++ (codes " of " ++ (itoa total ++ codes ")\n")))

length-numbered :
    (part total : ℕ) → length (numbered part total) ≡ 20 + length (itoa part) + length (itoa total)
unfolding numbered
length-numbered part total = omega (
  arith,
  length-append (itoa part) (codes " of " ++ (itoa total ++ codes ")\n")),
  length-append (itoa total) (codes ")\n"),
)

chunk_header-cases :
    (identifier : Bytes) (part total : ℕ)
    → (length (chunk_header identifier part total) ≡ 21 + length identifier)
      ⊎ (length (chunk_header identifier part total)
          ≡ 13 + length identifier + length (numbered part total))
unfolding chunk_header numbered
chunk_header-cases identifier part total = elim (Bool-cases (total == 1)) [
  | inl one ↦ rw one (inl (omega (arith, length-append identifier (codes " Report\n"))))
  | inr many ↦ rw many (inr (omega (arith, length-append identifier (numbered part total))))
]

-- No header is longer than the one that is budgeted for.
chunk_header-longest :
    (identifier : Bytes) (part total : ℕ)
    → part < 1000
    → total < 1000
    → length (chunk_header identifier part total)
      ≤ length (chunk_header identifier max_comments_per_check max_comments_per_check)
chunk_header-longest identifier part total p t = elim (chunk_header-cases identifier part total) [
  | inl e ↦ omega (arith, e, longest)
  | inr e ↦
      omega
        (arith, e, longest, length-numbered part total, length-itoa_3 part p, length-itoa_3 total t)
]
  where
    longest :
        length (chunk_header identifier max_comments_per_check max_comments_per_check)
        ≡ 39 + length identifier
    longest =
        unfold chunk_header numbered in
        omega
          (arith, length-append identifier (numbered 999 999), length-numbered 999 999, itoa_999)

length-chunk_body_le :
    (cfg : ChunkConfig) (total i : ℕ) (c : List Bytes)
    → i + 1 < 1000
    → total < 1000
    → length (chunk_body cfg total i c)
      ≤ length (chunk_header cfg.identifier max_comments_per_check max_comments_per_check)
        + length continued_from
        + total_length c
unfolding chunk_body
length-chunk_body_le cfg total i c h t = ground (
  arith,
  chunk_header-longest cfg.identifier (i + 1) total h t,
  length-append (chunk_header cfg.identifier (i + 1) total) (continued_from ++ concat c),
  length-append (chunk_header cfg.identifier (i + 1) total) (concat c),
  length-append continued_from (concat c),
  length-concat c,
)

length-chunk_tail_le :
    (cfg : ChunkConfig) (truncated : Bool) (total i : ℕ)
    → length (chunk_tail cfg truncated total i)
      ≤ max
          (length continued_in)
          (length footer_separator + length cfg.footer + length truncated_note)
unfolding chunk_tail
length-chunk_tail_le cfg truncated total i = ground (
  arith,
  length-append footer_separator (cfg.footer ++ (if truncated then truncated_note else [])),
  length-append footer_separator (cfg.footer ++ truncated_note),
  length-append footer_separator (cfg.footer ++ []),
  length-append cfg.footer truncated_note,
  length-append cfg.footer [],
)

-- A chunk within the budget fits with its header and tail.
chunk_fits :
    (cfg : ChunkConfig) (truncated : Bool) (total i : ℕ) (c : List Bytes)
    → Within (section_budget cfg) c
    → i + 1 < 1000
    → total < 1000
    → pos (length (chunk_body cfg total i c) + length (chunk_tail cfg truncated total i))
      ≤ℤ cfg.max_length
unfolding section_budget
chunk_fits cfg truncated total i c w h t =
    let head =
      length (chunk_header cfg.identifier max_comments_per_check max_comments_per_check)
      + length continued_from in
    let tail =
      max (length continued_in)
        (length footer_separator + length cfg.footer + length truncated_note) in
    let sum =
      le_sub (total_length c + tail) cfg.max_length head
        (le_sub (total_length c) (cfg.max_length -ℤ pos head) tail w) in
    omega (
      arith,
      sum,
      length-chunk_body_le cfg total i c h t,
      length-chunk_tail_le cfg truncated total i,
    )

frame_chunk-uncut :
    (cfg : ChunkConfig) (truncated : Bool) (total i : ℕ) (c : List Bytes)
    → Within (section_budget cfg) c
    → i + 1 < 1000
    → total < 1000
    → frame_chunk cfg truncated total i c
      ≡ chunk_body cfg total i c ++ chunk_tail cfg truncated total i
unfolding frame_chunk fit_body
frame_chunk-uncut cfg truncated total i c w h t =
    rw
      (le→leb
        (length (chunk_body cfg total i c)
          + length (chunk_tail cfg truncated total i)
          + neg_part cfg.max_length)
        (pos_part cfg.max_length + 0) (chunk_fits cfg truncated total i c w h t))
      refl

frame_from-uncut :
    (cfg : ChunkConfig) (truncated : Bool) (total i : ℕ) (chunks : List (List Bytes))
    → All (Within (section_budget cfg)) chunks
    → i + length chunks < 1000
    → total < 1000
    → frame_from cfg truncated total i chunks ≡ uncut_from cfg truncated total i chunks
unfolding frame_from uncut_from
frame_from-uncut cfg truncated total i [] w h t = refl
frame_from-uncut cfg truncated total i (c ∷ chunks) w h t = cc (
  frame_chunk-uncut cfg truncated total i c w.0 (omega arith) t,
  frame_from-uncut cfg truncated total (suc i) chunks w.1 (omega arith) t,
)

module _ {ℓ κ} {A : Type ℓ} (P : A → Type κ) where
  All-take : (n : ℕ) (xs : List A) → All P xs → All P (take n xs)
  All-take zero xs h = tt
  All-take (suc n) [] h = tt
  All-take (suc n) (x ∷ xs) h = (h.0, All-take n xs h.1)

  All-split : (xs ys : List A) → All P (xs ++ ys) → All P xs × All P ys
  All-split [] ys h = (tt, h)
  All-split (x ∷ xs) ys h = ((h.0, (All-split xs ys h.1).0), (All-split xs ys h.1).1)

  All-concat : (css : List (List A)) → All P (concat css) → All (All P) css
  All-concat [] h = tt
  All-concat (c ∷ css) h =
      ((All-split c (concat css) h).0, All-concat css (All-split c (concat css) h).1)

-- Chunks of sections that are within the budget are within it, also those of one section.
chunks-Within :
    (budget : ℤ) (css : List (List Bytes))
    → All (IsChunk budget) css
    → All (All (λ s. pos (length s) ≤ℤ budget)) css
    → All (Within budget) css
unfolding total_length
chunks-Within budget [] h k = tt
chunks-Within budget ([] ∷ css) h k = absurd (h.0.0 refl)
chunks-Within budget ((s ∷ []) ∷ css) h k = (omega (arith, k.0.0), chunks-Within budget css h.1 k.1)
chunks-Within budget ((s ∷ t ∷ c) ∷ css) h k =
    (elim h.0.1 [ inl w ↦ w | inr e ↦ absurd (omega (arith, e)) ], chunks-Within budget css h.1 k.1)

or_no_changes-nonempty :
    (budget : ℤ) (css : List (List Bytes))
    → All (IsChunk budget) css
    → css ≢ []
    → or_no_changes css ≡ css
unfolding or_no_changes
or_no_changes-nonempty budget [] h n = absurd (n refl)
or_no_changes-nonempty budget ([] ∷ []) h n = absurd (h.0.0 refl)
or_no_changes-nonempty budget ((s ∷ c) ∷ []) h n = refl
or_no_changes-nonempty budget ([] ∷ d ∷ css) h n = refl
or_no_changes-nonempty budget ((s ∷ c) ∷ d ∷ css) h n = refl

take-ne-nil : (n : ℕ) (css : List (List Bytes)) → 1 ≤ n → css ≢ [] → take n css ≢ []
take-ne-nil zero css h k e = absurd (omega arith)
take-ne-nil (suc n) [] h k e = k refl
take-ne-nil (suc n) (c ∷ css) h k e = cc

shown_take :
    (n : ℕ) (css : List (List Bytes))
    → (if ltb n (length css) then take n css else css) ≡ take n css
shown_take n css = elim (Bool-cases (ltb n (length css))) [
  | inl h ↦ rw h
  | inr h ↦ rw h (sym (take-length n css (ltb→le _ _ h)))
]

-- If every section is within the budget for sections, no comment is cut short: the comments are the
-- chunks, as many as the cap allows, each with its header in front, all of its sections and its
-- tail behind.
pub split_into_chunks_uncut :
    (sections : List Bytes) (cfg : ChunkConfig)
    → sections ≢ []
    → 1 ≤ cfg.max_chunks
    → cfg.max_chunks ≤ max_comments_per_check
    → All (λ s. pos (length s) ≤ℤ section_budget cfg) sections
    → split_into_chunks sections cfg ≡ (
        uncut_from cfg
          (ltb cfg.max_chunks (length (pack_sections sections (section_budget cfg))))
          (length (take cfg.max_chunks (pack_sections sections (section_budget cfg))))
          0
          (take cfg.max_chunks (pack_sections sections (section_budget cfg))))
unfolding split_into_chunks frame_chunks
split_into_chunks_uncut sections cfg some_section cap cap_le fit =
    rw (shown_take cfg.max_chunks raw, or_no_changes-nonempty budget shown shown-IsChunk shown-ne)
      (frame_from-uncut cfg (ltb cfg.max_chunks (length raw)) (length shown) 0 shown
        (chunks-Within budget shown shown-IsChunk shown-fit)
        (omega (arith, length-take_le cfg.max_chunks raw))
        (omega (arith, length-take_le cfg.max_chunks raw)))
  where
    budget : ℤ
    budget = section_budget cfg

    raw : List (List Bytes)
    raw = pack_sections sections budget

    shown : List (List Bytes)
    shown = take cfg.max_chunks raw

    shown-IsChunk : All (IsChunk budget) shown
    shown-IsChunk =
        All-take (IsChunk budget) cfg.max_chunks raw (pack_sections_lem sections budget).1

    shown-fit : All (All (λ s. pos (length s) ≤ℤ budget)) shown
    shown-fit = All-take (All (λ s. pos (length s) ≤ℤ budget)) cfg.max_chunks raw (
        All-concat (λ s. pos (length s) ≤ℤ budget) raw
          (subst (All (λ s. pos (length s) ≤ℤ budget)) (sym (pack_sections_lem sections budget).0)
            fit))

    raw-ne : raw ≢ []
    raw-ne e = some_section (sym (pack_sections_lem sections budget).0 ∙ ap concat e)

    shown-ne : shown ≢ []
    shown-ne = take-ne-nil cfg.max_chunks raw cap raw-ne
