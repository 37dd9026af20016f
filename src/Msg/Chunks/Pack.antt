-- ===== src/Msg/Chunks/Pack.antt =====
-- `packSections`: nothing is lost, chunks are within the budget, and no packing takes fewer.
use kubechecks.Common.{
  ℕ, suc, ◌+◌, ◌≤◌, Bytes, true, false, List, [], ◌∷◌, ◌++◌, ℤ, pos, leb_ℤ, length, concat,
  if◌then◌else◌, ◌≡◌, ◌≢◌, refl, sym, ap, ◌∙◌, ◌⊎◌, inl, inr, arith, All, All-append, append_assoc,
  append-nil, concat-append, ◌≤ℤ◌, Bool-cases, leb→le, pos_part, neg_part, subst, length-append,
  le→leb,
}
use kubechecks.Msg.Chunks.{pack, pack_sections, total_length}

total_length-append :
    (xs ys : List Bytes) → total_length (xs ++ ys) ≡ total_length xs + total_length ys
unfolding total_length
total_length-append [] ys = omega arith
total_length-append (x ∷ xs) ys = omega (arith, total_length-append xs ys)

total_length_one : (s : Bytes) → total_length (s ∷ []) ≡ length s
unfolding total_length
total_length_one s = omega arith

concat-snoc :
    (chunks : List (List Bytes)) (c : List Bytes) → concat (chunks ++ c ∷ []) ≡ concat chunks ++ c
concat-snoc chunks c = concat-append chunks (c ∷ []) ∙ ap (λ t. concat chunks ++ t) (append-nil c)

concat-pack :
    (budget : ℤ) (chunks : List (List Bytes)) (current : List Bytes) (n : ℕ) (ss : List Bytes)
    → concat (pack budget chunks current n ss) ≡ concat chunks ++ (current ++ ss)
unfolding pack
concat-pack budget chunks [] n [] = sym (append-nil (concat chunks))
concat-pack budget chunks (c ∷ current) n [] =
    concat-snoc chunks (c ∷ current) ∙ ap (λ t. concat chunks ++ t) (sym (append-nil (c ∷ current)))
concat-pack budget chunks [] n (s ∷ ss) =
    ground (arith, concat-pack budget chunks (s ∷ []) (n + length s) ss)
concat-pack budget chunks (c ∷ current) n (s ∷ ss) = ground (
  arith,
  concat-pack budget (chunks ++ (c ∷ current) ∷ []) (s ∷ []) (length s) ss,
  concat-pack budget chunks ((c ∷ current) ++ s ∷ []) (n + length s) ss,
  concat-snoc chunks (c ∷ current),
  append_assoc (c ∷ current) (s ∷ []) ss,
  append_assoc (concat chunks) (c ∷ current) (s ∷ ss),
)

-- A chunk is not empty, and is within the budget unless it is a single section.
abbrev pub IsChunk : ℤ → List Bytes → Type 0
IsChunk budget c = (c ≢ []) × ((pos (total_length c) ≤ℤ budget) ⊎ (length c ≡ 1))

-- A section closes the chunk that it does not fit in, and otherwise joins it.
abbrev Step : ℤ → List (List Bytes) → List Bytes → ℕ → Bytes → List Bytes → Type 0
Step budget chunks current n s ss =
    ((current ≢ [])
      × (leb_ℤ (pos (n + length s)) budget ≡ false)
      × (pack budget chunks current n (s ∷ ss)
          ≡ pack budget (chunks ++ current ∷ []) (s ∷ []) (length s) ss))
    ⊎ (((current ≡ []) ⊎ (leb_ℤ (pos (n + length s)) budget ≡ true))
        × (pack budget chunks current n (s ∷ ss)
            ≡ pack budget chunks (current ++ s ∷ []) (n + length s) ss))

pack-Step :
    (budget : ℤ) (chunks : List (List Bytes)) (current : List Bytes) (n : ℕ) (s : Bytes)
    (ss : List Bytes)
    → Step budget chunks current n s ss
unfolding pack
pack-Step budget chunks [] n s ss = inr (inl refl, refl)
pack-Step budget chunks (c ∷ current) n s ss =
    elim (Bool-cases (leb_ℤ (pos (n + length s)) budget)) [
      | inl fits ↦ inr (inr fits, simp fits)
      | inr over ↦ inl ((λ e. cc), over, simp over)
    ]

single-IsChunk : (budget : ℤ) (s : Bytes) → IsChunk budget (s ∷ [])
single-IsChunk budget s = ((λ e. cc), inr refl)

grown-IsChunk :
    (budget : ℤ) (current : List Bytes) (n : ℕ) (s : Bytes)
    → n ≡ total_length current
    → (current ≡ []) ⊎ (leb_ℤ (pos (n + length s)) budget ≡ true)
    → IsChunk budget (current ++ s ∷ [])
unfolding total_length
grown-IsChunk budget [] n s e h = single-IsChunk budget s
grown-IsChunk budget (c ∷ current) n s e (inl h) = absurd (cons_nil h)
  where
    cons_nil : c ∷ current ≡ [] → ⊥
    cons_nil p = cc
grown-IsChunk budget (c ∷ current) n s e (inr h) =
    ((λ p. cc), inl (omega (arith, leb→le _ _ h, total_length-append current (s ∷ []))))

pack-IsChunk :
    (budget : ℤ) (chunks : List (List Bytes)) (current : List Bytes) (n : ℕ) (ss : List Bytes)
    → All (IsChunk budget) chunks
    → (current ≡ []) ⊎ IsChunk budget current
    → n ≡ total_length current
    → All (IsChunk budget) (pack budget chunks current n ss)
unfolding pack
pack-IsChunk budget chunks [] n [] h k e = h
pack-IsChunk budget chunks (c ∷ current) n [] h (inl k) e = absurd (cons_nil k)
  where
    cons_nil : c ∷ current ≡ [] → ⊥
    cons_nil p = cc
pack-IsChunk budget chunks (c ∷ current) n [] h (inr k) e = All-append _ chunks _ h (k, tt)
pack-IsChunk budget chunks current n (s ∷ ss) h k e =
    elim (pack-Step budget chunks current n s ss) [
      | inl (full, over, p) ↦ subst (All (IsChunk budget)) (sym p) (
          pack-IsChunk budget (chunks ++ current ∷ []) (s ∷ []) (length s) ss
            (All-append _ chunks _ h (elim k [ inl none ↦ absurd (full none) | inr c ↦ c ], tt))
            (inr (single-IsChunk budget s)) (omega (arith, total_length_one s)))
      | inr (room, p) ↦ subst (All (IsChunk budget)) (sym p) (
          pack-IsChunk budget chunks (current ++ s ∷ []) (n + length s) ss h
            (inr (grown-IsChunk budget current n s e room))
            (omega (arith, total_length-append current (s ∷ []), total_length_one s)))
    ]

-- How many chunks a chunk of length `n` and the sections behind it become.
needed : ℤ → ℕ → List Bytes → ℕ
needed budget n [] = 1
needed budget n (s ∷ ss) =
    let joined = needed budget (n + length s) ss in
    let apart = suc (needed budget (length s) ss) in
    if leb_ℤ (pos (n + length s)) budget then joined else apart

length-snoc :
    (chunks : List (List Bytes)) (c : List Bytes) → length (chunks ++ c ∷ []) ≡ suc (length chunks)
length-snoc chunks c = omega (arith, length-append chunks (c ∷ []))

pack-needed :
    (budget : ℤ) (chunks : List (List Bytes)) (c : Bytes) (current : List Bytes) (n : ℕ)
    (ss : List Bytes)
    → length (pack budget chunks (c ∷ current) n ss) ≡ length chunks + needed budget n ss
unfolding pack needed
pack-needed budget chunks c current n [] = omega (arith, length-snoc chunks (c ∷ current))
pack-needed budget chunks c current n (s ∷ ss) = ground (
  arith,
  length-snoc chunks (c ∷ current),
  pack-needed budget (chunks ++ (c ∷ current) ∷ []) s [] (length s) ss,
  pack-needed budget chunks c (current ++ s ∷ []) (n + length s) ss,
)

-- A longer chunk needs no fewer chunks behind it, and at most one more.
needed_mono :
    (budget : ℤ) (n n' : ℕ) (ss : List Bytes)
    → (n ≤ n' → needed budget n ss ≤ needed budget n' ss)
      × (needed budget n' ss ≤ suc (needed budget n ss))
unfolding needed
needed_mono budget n n' [] = ((λ h. omega arith), omega arith)
needed_mono budget n n' (s ∷ ss) =
    let both = needed_mono budget (n + length s) (n' + length s) ss in
    let one = needed_mono budget (length s) (n + length s) ss in
    let other = needed_mono budget (length s) (n' + length s) ss in
    ((λ h. ground (arith, both.0, other.1)), ground (arith, both.1, one.0, one.1, other.1))

abbrev pub Within : ℤ → List Bytes → Type 0
Within budget c = pos (total_length c) ≤ℤ budget

-- Sections that stay within the budget join the chunk.
needed-append :
    (budget : ℤ) (n : ℕ) (xs rest : List Bytes)
    → pos (n + total_length xs) ≤ℤ budget
    → needed budget n (xs ++ rest) ≡ needed budget (n + total_length xs) rest
unfolding needed total_length
needed-append budget n [] rest h = ap (λ t. needed budget t rest) (omega arith)
needed-append budget n (x ∷ xs) rest h =
    rw (le→leb (n + length x + neg_part budget) (pos_part budget + 0) (omega arith)) (
      needed-append budget (n + length x) xs rest (omega arith)
      ∙ ap (λ t. needed budget t rest) (omega arith))

needed-concat :
    (budget : ℤ) (n : ℕ) (css : List (List Bytes))
    → All (Within budget) css
    → needed budget n (concat css) ≤ suc (length css)
unfolding needed total_length
needed-concat budget n [] h = omega arith
needed-concat budget n ([] ∷ css) h = omega (arith, needed-concat budget n css h.1)
needed-concat budget n ((y ∷ ys) ∷ css) h = ground (
  arith,
  needed-append budget (length y) ys (concat css) h.0,
  needed-concat budget (length y + total_length ys) css h.1,
  (needed_mono budget (length y) (n + length y) (ys ++ concat css)).1,
)

-- Packing keeps the sections and their order. No chunk is empty, and a chunk is within the budget
-- unless it is a single section.
pub pack_sections_lem :
    (sections : List Bytes) (budget : ℤ)
    → (concat (pack_sections sections budget) ≡ sections)
      × All (IsChunk budget) (pack_sections sections budget)
unfolding pack_sections total_length
pack_sections_lem sections budget =
    (concat-pack budget [] [] 0 sections, pack-IsChunk budget [] [] 0 sections tt (inl refl) refl)

-- No way to cut the sections into consecutive chunks within the budget takes fewer chunks.
pub pack_sections_fewest :
    (budget : ℤ) (chunks : List (List Bytes))
    → All (Within budget) chunks
    → length (pack_sections (concat chunks) budget) ≤ length chunks
unfolding pack_sections total_length
pack_sections_fewest budget [] h = omega arith
pack_sections_fewest budget ([] ∷ css) h = omega (arith, pack_sections_fewest budget css h.1)
pack_sections_fewest budget ((y ∷ ys) ∷ css) h = omega (
  arith,
  pack-needed budget [] y [] (0 + length y) (ys ++ concat css),
  needed-append budget (0 + length y) ys (concat css) (omega (arith, h.0)),
  needed-concat budget (0 + length y + total_length ys) css h.1,
)
