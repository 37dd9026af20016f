-- ===== src/Msg/Split/Pieces.antt =====
-- What `splitDetailsAtLines` makes of a text: a chain of parts, each of which reopens what was open
-- where the part before it was closed, with the lines of the text in order between them.
use kubechecks.Common.{
  ℕ, ◌+◌, ◌≤◌, ◌<◌, Bytes, List, [], ◌∷◌, ◌++◌, length, concat, ◌≡◌, refl, ap, ◌⊎◌,
}
use kubechecks.Msg.Markdown.{MdState, next, closer_len, closer, opener, line_truncated}
use kubechecks.Msg.Split.Shrink.{Shortened}

-- The state behind some lines.
unfoldable pub after_lines : MdState → List Bytes → MdState
after_lines s [] = s
after_lines s (l ∷ ls) = after_lines (next s l) ls

pub after_lines-append :
    (s : MdState) (ls ms : List Bytes)
    → after_lines s (ls ++ ms) ≡ after_lines (after_lines s ls) ms
unfolding after_lines
after_lines-append s [] ms = refl
after_lines-append s (l ∷ ls) ms = after_lines-append (next s l) ls ms

-- A part: the state where it begins is reopened, and the state where it ends is closed.
unfoldable pub piece : MdState → List Bytes → Bytes
piece s ls = opener s ++ (concat ls ++ closer (after_lines s ls))

-- A chain of parts from a state.
unfoldable pub pieces : MdState → List (List Bytes) → List Bytes
pieces s [] = []
pieces s (ls ∷ lss) = piece s ls ∷ pieces (after_lines s ls) lss

pub pieces-snoc :
    (s : MdState) (lss : List (List Bytes)) (ls : List Bytes)
    → pieces s (lss ++ ls ∷ []) ≡ pieces s lss ++ piece (after_lines s (concat lss)) ls ∷ []
unfolding pieces after_lines
pieces-snoc s [] ls = refl
pieces-snoc s (ms ∷ lss) ls =
    ap (λ t. piece s ms ∷ t)
      (rw (after_lines-append s ms (concat lss)) (pieces-snoc (after_lines s ms) lss ls))

module _ (max_len : ℕ) where
  -- A line is written whole; only a line that does not fit in a part of its own is shortened.
  abbrev pub Kept : MdState → Bytes → Bytes → Type 0
  Kept s line line' =
      (line' ≡ line)
      ⊎ ((max_len < length (opener s) + length line + closer_len (next s line))
          × Shortened line line')

  -- Line by line what is written, each in the state that the lines before it lead to.
  abbrev pub Written : MdState → List Bytes → List Bytes → Type 0
  Written s [] [] = Unit
  Written s [] (w ∷ ws) = ⊥
  Written s (l ∷ ls) [] = ⊥
  Written s (l ∷ ls) (w ∷ ws) = Kept s l w × Written (next s w) ls ws

  -- A part is within the limit, or holds nothing but the marker.
  abbrev pub Fits : MdState → List Bytes → Type 0
  Fits s ls = (length (piece s ls) ≤ max_len) ⊎ (ls ≡ line_truncated ∷ [])

  abbrev pub AllFit : MdState → List (List Bytes) → Type 0
  AllFit s [] = Unit
  AllFit s (ls ∷ lss) = Fits s ls × AllFit (after_lines s ls) lss

  pub Written-snoc :
      (s : MdState) (ls ws : List Bytes) (l w : Bytes)
      → Written s ls ws
      → Kept (after_lines s ws) l w
      → Written s (ls ++ l ∷ []) (ws ++ w ∷ [])
  unfolding after_lines
  Written-snoc s [] [] l w h k = (k, tt)
  Written-snoc s [] (v ∷ ws) l w h k = elim h [ ]
  Written-snoc s (m ∷ ls) [] l w h k = elim h [ ]
  Written-snoc s (m ∷ ls) (v ∷ ws) l w h k = (h.0, Written-snoc (next s v) ls ws l w h.1 k)

  pub AllFit-snoc :
      (s : MdState) (lss : List (List Bytes)) (ls : List Bytes)
      → AllFit s lss
      → Fits (after_lines s (concat lss)) ls
      → AllFit s (lss ++ ls ∷ [])
  unfolding after_lines
  AllFit-snoc s [] ls h f = (f, tt)
  AllFit-snoc s (ms ∷ lss) ls h f = (
    h.0,
    AllFit-snoc (after_lines s ms) lss ls h.1 (rw (← after_lines-append s ms (concat lss)) f),
  )
