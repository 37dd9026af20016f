-- ===== src/Tests/Split.antt =====
-- pkg/msg/message.go: a fenced text that is split into three parts.
use kubechecks.CommitState.{parse_commit_state, state_warning}
use kubechecks.Common.{itoa, some, bytes_eq, Bytes, codes, pos, [], ◌∷◌, ◌≡◌, refl, concat, arith}
use kubechecks.Msg.Markdown.{MdState, no_state, fence_of, next, closer, closer_len, opener}
use kubechecks.Common.{trim_left, trim_space, split_after}
use kubechecks.Msg.Runes.{rune_start, cut_at_rune}
use kubechecks.Msg.Split.{split_details_at_lines}
use kubechecks.Msg.Split.Laws.{Parts, text_lines, split_details_at_lines_lem}

abbrev fenced : Bytes
fenced = codes "```\naaaa\nbbbb\ncccc\n```\n"

fenced_parts :
    split_details_at_lines fenced (pos 16)
    ≡ codes "```\naaaa\n```\n" ∷ (codes "```\nbbbb\n```\n" ∷ (codes "```\ncccc\n```\n" ∷ []))
unfolding split_details_at_lines next split_after closer_len no_state fence_of trim_left opener
    trim_space closer
fenced_parts = refl

split_details_at_lines_lem_example :
    (concat (text_lines (split_after fenced)) ≡ fenced)
    × Parts 16 (text_lines (split_after fenced)) (split_details_at_lines fenced (pos 16))
split_details_at_lines_lem_example =
    split_details_at_lines_lem fenced 16 (omega arith) (omega arith)

-- An "e" with an acute accent, two bytes, in the way of the cut.
abbrev accented : Bytes
accented = 99 ∷ 195 ∷ 169 ∷ 99 ∷ []

cut_accented : cut_at_rune accented (pos 2) ≡ 99 ∷ []
unfolding cut_at_rune rune_start
cut_accented = refl

abbrev in_fence : MdState
in_fence = record { fence = codes "```"; fence_info = codes "yaml"; details = [] }

itoa_305 : itoa 305 ≡ codes "305"
unfolding itoa
itoa_305 = refl

trim_space_blanks : trim_space (codes " go \n") ≡ codes "go"
unfolding trim_space
trim_space_blanks = refl

warning_upper : parse_commit_state (codes "WarNing") ≡ some state_warning
unfolding parse_commit_state bytes_eq
warning_upper = refl
