-- ===== src/Msg/Split.antt =====
-- pkg/msg/message.go, `splitDetailsAtLines`: the details of a check are cut between lines.
-- The limit is positive where the loop runs, so its tests are written with sums: `room` is
-- `max_len` less the length of the buffer and of the closer, and `len(line) > room` says that the
-- limit is below the three together.
pub mod Shrink
pub mod Pieces
pub mod Loop
pub mod Laws
use kubechecks.Common.{
  ℕ, zero, suc, ◌+◌, ◌-◌, ◌≤◌, ◌<◌, Bytes, Bool, true, false, ◌&&◌, ◌||◌, List, [], ◌∷◌, ◌++◌, ℤ,
  pos, pos_part, neg_part, leb_ℤ, leb, length, if◌then◌else◌, ltb, split_after, is_empty, ◌≡◌, refl,
  codes,
}
use kubechecks.Msg.Runes.{cut_at_rune}
use kubechecks.Msg.Markdown.{MdState, no_state, next, closer_len, closer, opener, line_truncated}

-- The line with what can be kept of it, and the marker.
unfoldable pub shorten : ℕ → ℕ → MdState → Bytes → Bytes
shorten max_len buf_len after line =
    cut_at_rune line (pos (max_len - buf_len - closer_len after - length line_truncated))
    ++ line_truncated

-- `for room := …; len(line) > room; room = … { … }` on fuel; the line gets shorter each time.
unfoldable pub shrink : ℕ → ℕ → ℕ → MdState → Bytes → MdState → Bytes × MdState
shrink zero max_len buf_len state line after = (line, after)
shrink (suc fuel) max_len buf_len state line after =
    let line' = shorten max_len buf_len after line in
    let rest = shrink fuel max_len buf_len state line' (next state line') in
    if leb (length line + buf_len + closer_len after) max_len
    then (line, after)
    else if ltb max_len (buf_len + closer_len after + length line_truncated)
    then (line_truncated, state)
    else rest

-- The variables of the loop over the lines.
pub record Splitter : Type 0 where
  pub parts : List Bytes
  pub buf : Bytes
  pub state : MdState
  pub has_content : Bool

-- `if hasContent && … { … }`: the part is finished and the next one is opened.
unfoldable pub flush : ℕ → Splitter → Bytes → MdState → Splitter
flush max_len sp line after =
    if sp.has_content && ltb max_len (length sp.buf + length line + closer_len after)
    then record sp { parts = sp.parts ++ (sp.buf ++ closer sp.state) ∷ []; buf = opener sp.state }
    else sp

unfoldable pub write_line : ℕ → Splitter → Bytes → MdState → Splitter
write_line max_len sp line after =
    let (line', after') = shrink (suc (length line)) max_len (length sp.buf) sp.state line after in
    record sp { buf = sp.buf ++ line'; state = after'; has_content = true }

unfoldable pub feed : ℕ → Splitter → Bytes → Splitter
feed max_len sp line =
    let after = next sp.state line in
    if is_empty line then sp else write_line max_len (flush max_len sp line after) line after

unfoldable pub feed_all : ℕ → Splitter → List Bytes → Splitter
feed_all max_len sp [] = sp
feed_all max_len sp (line ∷ lines) = feed_all max_len (feed max_len sp line) lines

unfoldable pub empty_splitter : Splitter
empty_splitter = record { parts = []; buf = []; state = no_state; has_content = false }

unfoldable pub finish : Splitter → List Bytes
finish sp = if sp.has_content then sp.parts ++ (sp.buf ++ closer sp.state) ∷ [] else sp.parts

unfoldable pub split_details_at_lines : Bytes → ℤ → List Bytes
unfolding feed_all feed flush write_line shrink shorten empty_splitter finish
split_details_at_lines content max_len =
    if leb_ℤ max_len (pos 0) || leb_ℤ (pos (length content)) max_len
    then content ∷ []
    else finish (feed_all (pos_part max_len) empty_splitter (split_after content))
