-- ===== src/Msg/Markdown.antt =====
-- pkg/msg/message.go, `mdState`: what is still open at some line of a check's details.
use kubechecks.Common.{
  ℕ, ◌+◌, ◌-◌, ◌*◌, Bytes, Bool, true, false, not, ◌&&◌, ◌||◌, Option, none, some, List, [], ◌∷◌,
  ◌++◌, pos, length, take, drop_last, is_empty, if◌then◌else◌, leb, ltb, has_prefix, trim_left,
  trim_space, cut, codes, newline, ◌≡◌, arith, length-append, ap, Bool-cases, inl, inr, refl,
}
use kubechecks.Msg.Runes.{cut_at_rune}

pub record OpenDetails : Type 0 where
  pub summary : Bytes
  pub has_summary : Bool

pub record MdState : Type 0 where
  pub fence : Bytes
  pub fence_info : Bytes
  pub details : List OpenDetails

-- `var state mdState`
unfoldable pub no_state : MdState
no_state = record { fence = []; fence_info = []; details = [] }

-- `fenceOf(line)` is the marker and the info. `trimmed` and `rest` are ends of what they are
-- trimmed from, so no difference of lengths is negative.
unfoldable pub fence_of : Bytes → Bytes × Bytes
fence_of line =
    let trimmed = trim_left b' ' line in
    let rest = trim_left b'`' trimmed in
    if ltb 3 (length line - length trimmed) || ltb (length trimmed - length rest) 3
    then ([], [])
    else (take (length trimmed - length rest) trimmed, trim_space rest)

unfoldable pub max_carried_summary : ℕ
max_carried_summary = 80

-- One round of the scan for tags, at what is left of the line.
unfoldable pub scan_tag : Bytes → List OpenDetails → List OpenDetails
scan_tag rest details =
    if has_prefix rest (codes "<details>") || has_prefix rest (codes "<details ")
    then details ++ record { summary = []; has_summary = false } ∷ []
    else if has_prefix rest (codes "</details>") && not (is_empty details)
    then drop_last details
    else details

unfoldable pub scan_tags : Bytes → List OpenDetails → List OpenDetails
unfolding scan_tag
scan_tags [] details = details
scan_tags (c ∷ line) details = scan_tags line (scan_tag (c ∷ line) details)

-- `_, rest, ok := strings.Cut(line, "<summary>")`, and up to `</summary>` in the rest
unfoldable pub summary_of : Bytes → Option Bytes
summary_of line = elim (cut line (codes "<summary>")) [
  | none ↦ none
  | some (before, rest) ↦ elim (cut rest (codes "</summary>")) [
    | none ↦ none
    | some (text, after) ↦ some text
  ]
]

-- The innermost open block, the last of the list, takes the summary if it has none yet.
unfoldable pub set_summary : Option Bytes → List OpenDetails → List OpenDetails
unfolding max_carried_summary
set_summary found [] = []
set_summary none (d ∷ []) = d ∷ []
set_summary (some text) (d ∷ []) =
    if d.has_summary
    then d ∷ []
    else record { summary = cut_at_rune text (pos max_carried_summary); has_summary = true } ∷ []
set_summary found (d ∷ e ∷ ds) = d ∷ set_summary found (e ∷ ds)

unfoldable pub next : MdState → Bytes → MdState
unfolding scan_tags summary_of set_summary
next s line =
    let (marker, info) = fence_of line in
    if not (is_empty s.fence)
    then (if is_empty info && leb (length s.fence) (length marker)
        then record s { fence = []; fence_info = [] }
        else s)
    else if not (is_empty marker)
    then record s { fence = marker; fence_info = info }
    else record s { details = set_summary (summary_of line) (scan_tags line s.details) }

unfoldable pub details_close : Bytes
details_close = codes "\n</details>\n"

unfoldable pub closer_len : MdState → ℕ
unfolding details_close
closer_len s =
    let n = length s.details * length details_close in
    if not (is_empty s.fence) then n + (length s.fence + 1) else n

-- `for range s.details { sb.WriteString(detailsClose) }`
unfoldable pub close_details : List OpenDetails → Bytes
unfolding details_close
close_details [] = []
close_details (d ∷ ds) = details_close ++ close_details ds

unfoldable pub closer : MdState → Bytes
unfolding close_details
closer s =
    (if not (is_empty s.fence) then s.fence ++ newline ∷ [] else []) ++ close_details s.details

-- `for _, d := range s.details { … }`
unfoldable pub open_details : List OpenDetails → Bytes
open_details [] = []
open_details (d ∷ ds) =
    (codes "<details>\n"
      ++ (if d.has_summary
          then codes "<summary>" ++ (d.summary ++ codes " (continued)</summary>\n\n")
          else []))
    ++ open_details ds

unfoldable pub opener : MdState → Bytes
unfolding open_details
opener s =
    open_details s.details
    ++ (if not (is_empty s.fence) then s.fence ++ (s.fence_info ++ newline ∷ []) else [])

length-close_details : (ds : List OpenDetails) → length (close_details ds) ≡ length ds * 12
unfolding close_details
length-close_details [] = omega arith
length-close_details (d ∷ ds) = omega (arith, length-close_details ds)

-- `closerLen` is the length of `closer`, for every state.
pub closer_len-length : (s : MdState) → closer_len s ≡ length (closer s)
unfolding closer_len closer
closer_len-length s = ground (
  arith,
  length-close_details s.details,
  length-append (s.fence ++ newline ∷ []) (close_details s.details),
  length-append s.fence (newline ∷ []),
)

set_summary-none : (ds : List OpenDetails) → set_summary none ds ≡ ds
unfolding set_summary
set_summary-none [] = refl
set_summary-none (d ∷ []) = refl
set_summary-none (d ∷ e ∷ ds) = ap (λ t. d ∷ t) (set_summary-none (e ∷ ds))

leb-is_empty : (f : Bytes) → is_empty f ≡ false → leb (length f) 0 ≡ false
leb-is_empty [] h = cc
leb-is_empty (c ∷ f) h = ground arith

-- The marker of a line that was cut short.
unfoldable pub line_truncated : Bytes
line_truncated = codes "... (line truncated)\n"

-- The marker opens and closes nothing.
pub next-line_truncated : (s : MdState) → next s line_truncated ≡ s
unfolding next line_truncated fence_of trim_left trim_space cut
next-line_truncated s = elim (Bool-cases (is_empty s.fence)) [
  | inl e ↦ rw (e, next) (ap (λ t. record s { details = t }) (set_summary-none s.details))
  | inr e ↦ rw (e, next, leb-is_empty s.fence e)
]
