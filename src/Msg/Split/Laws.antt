-- ===== src/Msg/Split/Laws.antt =====
-- What `splitDetailsAtLines` makes of a text.
use kubechecks.Common.{
  ℕ, ◌≤◌, ◌<◌, Bytes, List, [], ◌∷◌, ◌++◌, pos, ℤ, length, concat, is_empty, if◌then◌else◌, leb,
  ◌≡◌, refl, sym, ap, ◌∙◌, ◌⊎◌, inl, inr, arith, All, append_assoc, append-nil, Bool-cases,
  split_after, concat-split_after, leb→le, leb→lt, subst, ◌≤ℤ◌,
}
use kubechecks.Msg.Markdown.{
  MdState, no_state, next, closer_len, closer, opener, line_truncated, next-line_truncated,
}
use kubechecks.Msg.Split.{
  Splitter, flush, write_line, feed, feed_all, empty_splitter, finish, split_details_at_lines,
}
use kubechecks.Msg.Split.Pieces.{after_lines, piece, pieces, Written, Fits, AllFit}
use kubechecks.Msg.Split.Loop.{
  Inv, write-Inv, flush-Ready, finished_parts, finished_fit, concat-snoc,
}

-- `strings.SplitAfter` leaves an empty text behind the last newline, which the loop skips.
abbrev pub text_lines : List Bytes → List Bytes
text_lines [] = []
text_lines (l ∷ ls) = let rest = text_lines ls in if is_empty l then rest else l ∷ rest

concat-text_lines : (ls : List Bytes) → concat (text_lines ls) ≡ concat ls
concat-text_lines [] = refl
concat-text_lines ([] ∷ ls) = concat-text_lines ls
concat-text_lines ((c ∷ l) ∷ ls) = ap (λ t. (c ∷ l) ++ t) (concat-text_lines ls)

module _ (max_len : ℕ) where
  flush-state :
      (sp : Splitter) (line : Bytes) (after : MdState)
      → (flush max_len sp line after).state ≡ sp.state
  unfolding flush
  flush-state sp line after = ground arith

  feed-Inv :
      (sp : Splitter) (line : Bytes) (lines : List Bytes)
      → Inv max_len sp lines
      → Inv max_len (feed max_len sp line) (lines ++ text_lines (line ∷ []))
  unfolding feed
  feed-Inv sp [] lines v = rw (append-nil lines) v
  feed-Inv sp (c ∷ line) lines v =
      subst
        (λ after. Inv max_len (write_line max_len sp' (c ∷ line) after) (lines ++ (c ∷ line) ∷ []))
        (ap (λ s. next s (c ∷ line)) (flush-state sp (c ∷ line) (next sp.state (c ∷ line))))
        (write-Inv max_len sp' (c ∷ line) lines (flush-Ready max_len sp (c ∷ line) lines v))
    where
      sp' : Splitter
      sp' = flush max_len sp (c ∷ line) (next sp.state (c ∷ line))

  text_lines-cons :
      (l : Bytes) (ls : List Bytes) → text_lines (l ∷ ls) ≡ text_lines (l ∷ []) ++ text_lines ls
  text_lines-cons l ls = ground arith

  feed_all-Inv :
      (sp : Splitter) (ls lines : List Bytes)
      → Inv max_len sp lines
      → Inv max_len (feed_all max_len sp ls) (lines ++ text_lines ls)
  unfolding feed_all
  feed_all-Inv sp [] lines v = rw (append-nil lines) v
  feed_all-Inv sp (l ∷ ls) lines v =
      subst (Inv max_len (feed_all max_len (feed max_len sp l) ls))
        (append_assoc lines (text_lines (l ∷ [])) (text_lines ls)
          ∙ ap (λ t. lines ++ t) (sym (text_lines-cons l ls)))
        (feed_all-Inv (feed max_len sp l) ls (lines ++ text_lines (l ∷ [])) (feed-Inv sp l lines v))

  empty-Inv : Inv max_len empty_splitter []
  unfolding empty_splitter pieces after_lines closer_len opener no_state
  empty-Inv = record {
    chain = record {
      done = [];
      cur = [];
      parts_eq = refl;
      buf_eq = refl;
      state_eq = refl;
      written = tt;
      all_fit = tt;
    };
    room = inl (omega arith);
    fresh = λ h. (refl, refl);
  }

  -- The parts that the loop leaves.
  abbrev pub Parts : List Bytes → List Bytes → Type 0
  Parts lines parts =
      (lss : List (List Bytes)) × (parts ≡ pieces no_state lss)
      × Written max_len no_state lines (concat lss)
      × AllFit max_len no_state lss

  finish-Parts :
      (sp : Splitter) (lines : List Bytes) → Inv max_len sp lines → Parts lines (finish sp)
  unfolding finish pieces
  finish-Parts sp lines v = elim (Bool-cases sp.has_content) [
    | inl h ↦ (
      c.done ++ c.cur ∷ [],
      simp h (finished_parts max_len sp lines c),
      subst (Written max_len no_state lines) (sym (concat-snoc c.done c.cur)) c.written,
      finished_fit max_len sp lines v,
    )
    | inr h ↦ (
      [],
      simp h (c.parts_eq ∙ ap (pieces no_state) (v.fresh h).0),
      subst (Written max_len no_state lines) (both (v.fresh h).0 (v.fresh h).1) c.written,
      tt,
    )
  ]
    where
      open v use {chain as c}

      both : c.done ≡ [] → c.cur ≡ [] → concat c.done ++ c.cur ≡ []
      both d e = cc

-- A text within the limit is one part, and so is any text if there is no room at all.
pub split_short :
    (content : Bytes) (max_len : ℤ)
    → (max_len ≤ℤ pos 0) ⊎ (pos (length content) ≤ℤ max_len)
    → split_details_at_lines content max_len ≡ content ∷ []
unfolding split_details_at_lines
split_short content max_len h = ground arith

split_long :
    (content : Bytes) (max_len : ℕ)
    → 0 < max_len
    → max_len < length content
    → split_details_at_lines content (pos max_len)
      ≡ finish (feed_all max_len empty_splitter (split_after content))
unfolding split_details_at_lines
split_long content max_len h long = ground arith

-- A text that is longer than a positive limit becomes a chain of parts.
-- The lines of the text, which spell it, are written in order and once each, and each as it is
-- but for a line that does not fit in a part of its own, of which a beginning is written with the
-- marker behind it. Each part reopens the fence and the blocks that are open where it begins, and
-- closes those that are open where it ends, which is where the next one begins. And each part is
-- within the limit unless it holds nothing but the marker of a line that was cut short.
pub split_details_at_lines_lem :
    (content : Bytes) (max_len : ℕ)
    → 0 < max_len
    → max_len < length content
    → (concat (text_lines (split_after content)) ≡ content)
      × Parts max_len
          (text_lines (split_after content))
          (split_details_at_lines content (pos max_len))
split_details_at_lines_lem content max_len h long = (
  concat-text_lines (split_after content) ∙ concat-split_after content,
  rw (split_long content max_len h long) (
      finish-Parts max_len (feed_all max_len empty_splitter (split_after content))
        (text_lines (split_after content))
        (feed_all-Inv max_len empty_splitter (split_after content) [] (empty-Inv max_len))),
)

-- Within the limit, or the marker alone between what was reopened and what is closed.
abbrev pub PartFits : ℕ → Bytes → Type 0
PartFits max_len p =
    (length p ≤ max_len) ⊎ ((s : MdState) × (p ≡ opener s ++ (line_truncated ++ closer s)))

marker-piece :
    (s : MdState) → piece s (line_truncated ∷ []) ≡ opener s ++ (line_truncated ++ closer s)
unfolding piece after_lines
marker-piece s = rw (append-nil line_truncated, next-line_truncated s)

AllFit-All :
    (max_len : ℕ) (s : MdState) (lss : List (List Bytes))
    → AllFit max_len s lss
    → All (PartFits max_len) (pieces s lss)
unfolding pieces
AllFit-All max_len s [] h = tt
AllFit-All max_len s (ls ∷ lss) h = (fit h.0, AllFit-All max_len (after_lines s ls) lss h.1)
  where
    marker_alone : ls ≡ line_truncated ∷ [] → piece s ls ≡ opener s ++ (line_truncated ++ closer s)
    marker_alone e = rw e (marker-piece s)

    fit : Fits max_len s ls → PartFits max_len (piece s ls)
    fit (inl f) = inl f
    fit (inr e) = inr (s, marker_alone e)

-- Every part of a text with a positive limit is within it, or is the marker of a line that was cut
-- short with nothing but what is reopened in front of it and what is closed behind it.
split_details_at_lines_fit :
    (content : Bytes) (max_len : ℕ)
    → 0 < max_len
    → All (PartFits max_len) (split_details_at_lines content (pos max_len))
split_details_at_lines_fit content max_len h = elim (Bool-cases (leb (length content) max_len)) [
  | inl short ↦
      rw (split_short content (pos max_len) (inr (omega (arith, leb→le _ _ short))))
        (inl (leb→le _ _ short), tt)
  | inr long ↦
      let (lss, e, _, fit) = (split_details_at_lines_lem content max_len h (leb→lt _ _ long)).1 in
      rw e (AllFit-All max_len no_state lss fit)
]
