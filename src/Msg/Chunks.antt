-- ===== src/Msg/Chunks.antt =====
-- pkg/msg/split.go: the sections of a report are packed into chunks, and each chunk becomes a
-- comment with a header and a tail. Budgets are integers, since the texts around a section may be
-- longer than a comment.
pub mod Pack
pub mod Frame
pub mod Uncut
use kubechecks.Common.{
  ℕ, zero, suc, ◌+◌, ◌-◌, ◌≤◌, ◌<◌, max, Bytes, Bool, true, false, ◌&&◌, ◌||◌, not, List, [], ◌∷◌,
  ◌++◌, ℤ, pos, pos_part, neg_part, leb_ℤ, leb, ◌-ℤ◌, length, take, concat, if◌then◌else◌, ltb,
  ◌==◌, split_after, is_empty, itoa, codes, newline, Option, none, some,
}
use kubechecks.Msg.Runes.{cut_at_rune}
use kubechecks.Msg.Markdown.{MdState, no_state, next, closer}

-- `pkg.MaxCommentsPerCheck`
abbrev pub max_comments_per_check : ℕ
max_comments_per_check = 999

pub record ChunkConfig : Type 0 where
  pub max_length : ℤ
  pub max_chunks : ℕ
  pub identifier : Bytes
  pub footer : Bytes

unfoldable pub footer_separator : Bytes
footer_separator = codes "\n\n"

unfoldable pub continued_from : Bytes
continued_from = codes "\n*Continued from previous comment.*\n\n"

unfoldable pub continued_in : Bytes
continued_in = codes "\n\n**Continued in next comment.**"

unfoldable pub truncated_note : Bytes
truncated_note =
    codes
      "\n\n**Warning**: Report exceeded the maximum number of comments. Some output was truncated."

unfoldable pub cut_short_note : Bytes
cut_short_note = codes "\n\n**Warning**: This comment was too long and was cut short."

unfoldable pub chunk_header : Bytes → ℕ → ℕ → Bytes
chunk_header identifier part total =
    if total == 1
    then codes "# Kubechecks " ++ (identifier ++ codes " Report\n")
    else codes "# Kubechecks "
      ++ (identifier
          ++ (codes " Report (Part "
              ++ (itoa part ++ (codes " of " ++ (itoa total ++ codes ")\n")))))

unfoldable pub section_budget : ChunkConfig → ℤ
section_budget cfg =
    let head =
      length (chunk_header cfg.identifier max_comments_per_check max_comments_per_check)
      + length continued_from in
    let tail =
      max (length continued_in)
        (length footer_separator + length cfg.footer + length truncated_note) in
    cfg.max_length -ℤ pos head -ℤ pos tail

unfoldable pub one_comment_budget : ChunkConfig → ℤ
one_comment_budget cfg =
    cfg.max_length
    -ℤ pos (length (chunk_header cfg.identifier 1 1))
    -ℤ pos (length footer_separator)
    -ℤ pos (length cfg.footer)

-- `for _, section := range sections { total += len(section) }`
unfoldable pub total_length : List Bytes → ℕ
total_length [] = 0
total_length (s ∷ ss) = length s + total_length ss

unfoldable pub fits_one_comment : ChunkConfig → List Bytes → Bool
unfolding total_length
fits_one_comment cfg sections = leb_ℤ (pos (total_length sections)) (one_comment_budget cfg)

-- The loop of `packSections` over the sections that are left.
unfoldable pub pack : ℤ → List (List Bytes) → List Bytes → ℕ → List Bytes → List (List Bytes)
pack budget chunks current current_len [] =
    if is_empty current then chunks else chunks ++ current ∷ []
pack budget chunks current current_len (section ∷ sections) =
    let close = not (is_empty current) && not (leb_ℤ (pos (current_len + length section)) budget) in
    pack budget (if close then chunks ++ current ∷ [] else chunks)
      (if close then section ∷ [] else current ++ section ∷ [])
      (if close then length section else current_len + length section) sections

unfoldable pub pack_sections : List Bytes → ℤ → List (List Bytes)
unfolding pack
pack_sections sections budget = pack budget [] [] 0 sections

-- `for _, line := range strings.SplitAfter(cut, "\n") { state = state.next(line) }`
unfoldable pub state_after : MdState → List Bytes → MdState
state_after s [] = s
state_after s (l ∷ ls) = state_after (next s l) ls

-- What closes a text that was cut, most likely in the middle of a line.
unfoldable pub cut_closer : Bytes → Bytes
unfolding state_after
cut_closer text = newline ∷ closer (state_after no_state (split_after text))

-- The loop of `cutShort` on fuel; `room` only falls, and the loop ends when it is not positive.
unfoldable pub cut_short_loop : ℕ → Bytes → ℕ → ℕ → Option Bytes
cut_short_loop zero markdown budget room = none
cut_short_loop (suc fuel) markdown budget room =
    let cut = cut_at_rune markdown (pos room) in
    let over = length cut + length (cut_closer cut) - budget in
    let again = cut_short_loop fuel markdown budget (room - over) in
    if room == 0
    then none
    else if ltb budget (length cut + length (cut_closer cut))
    then again
    else some (cut ++ (cut_closer cut ++ cut_short_note))

-- A budget that is not positive is like one of zero: the loop does not run.
unfoldable pub cut_short : Bytes → ℤ → Bytes
cut_short markdown max_len =
    let budget = pos_part (max_len -ℤ pos (length cut_short_note)) in
    elim (cut_short_loop (suc budget) markdown budget budget) [
      | none ↦ cut_at_rune markdown max_len
      | some text ↦ text
    ]

-- The header and the sections of the chunk with the index `i` of `total`.
unfoldable pub chunk_body : ChunkConfig → ℕ → ℕ → List Bytes → Bytes
chunk_body cfg total i sections =
    chunk_header cfg.identifier (i + 1) total
    ++ ((if ltb 0 i then continued_from else []) ++ concat sections)

unfoldable pub chunk_tail : ChunkConfig → Bool → ℕ → ℕ → Bytes
chunk_tail cfg truncated total i =
    if suc i == total
    then footer_separator ++ (cfg.footer ++ (if truncated then truncated_note else []))
    else continued_in

-- `if len(body)+len(tail) > cfg.MaxLength { body = cutShort(…) }`
unfoldable pub fit_body : ℤ → Bytes → Bytes → Bytes
fit_body max_length body tail =
    if leb_ℤ (pos (length body + length tail)) max_length
    then body
    else cut_short body (max_length -ℤ pos (length tail))

-- One round of the loop of `frameChunks`.
unfoldable pub frame_chunk : ChunkConfig → Bool → ℕ → ℕ → List Bytes → Bytes
frame_chunk cfg truncated total i sections =
    let tail = chunk_tail cfg truncated total i in
    fit_body cfg.max_length (chunk_body cfg total i sections) tail ++ tail

unfoldable pub frame_from : ChunkConfig → Bool → ℕ → ℕ → List (List Bytes) → List Bytes
frame_from cfg truncated total i [] = []
frame_from cfg truncated total i (sections ∷ chunks) =
    frame_chunk cfg truncated total i sections ∷ frame_from cfg truncated total (suc i) chunks

-- `len(chunks) == 0 || (len(chunks) == 1 && len(chunks[0]) == 0)`
unfoldable pub or_no_changes : List (List Bytes) → List (List Bytes)
or_no_changes [] = (codes "No changes" ∷ []) ∷ []
or_no_changes ([] ∷ []) = (codes "No changes" ∷ []) ∷ []
or_no_changes chunks = chunks

unfoldable pub frame_chunks : List (List Bytes) → Bool → ChunkConfig → List Bytes
unfolding frame_from or_no_changes
frame_chunks chunks truncated cfg =
    let chunks' = or_no_changes chunks in frame_from cfg truncated (length chunks') 0 chunks'

unfoldable pub split_into_chunks : List Bytes → ChunkConfig → List Bytes
split_into_chunks app_sections cfg =
    let raw_chunks = pack_sections app_sections (section_budget cfg) in
    let truncated = ltb cfg.max_chunks (length raw_chunks) in
    frame_chunks (if truncated then take cfg.max_chunks raw_chunks else raw_chunks) truncated cfg
