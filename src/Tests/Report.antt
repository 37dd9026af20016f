-- ===== src/Tests/Report.antt =====
-- pkg/msg/split.go: small reports under small limits.
use kubechecks.Common.{
  itoa, ◌-ℤ◌, ◌≤◌, Bytes, codes, false, List, [], ◌∷◌, some, ◌≡◌, refl, All, pos, length, take,
  concat, ltb, arith,
}
use kubechecks.CommitState.{CommitState}
use kubechecks.Msg.Store.{Result, Message, new_message}
use kubechecks.Msg.Chunks.{
  chunk_header, continued_from, ChunkConfig, pack_sections, split_into_chunks, section_budget,
  footer_separator, truncated_note, continued_in, total_length,
}
use kubechecks.Msg.Chunks.Pack.{IsChunk, pack_sections_lem, pack_sections_fewest}
use kubechecks.Msg.Chunks.Frame.{TailsFit}
use kubechecks.Msg.Chunks.Uncut.{uncut_from, split_into_chunks_uncut}
use kubechecks.Msg.Sections.{CheckBlock, build_app_sections}
use kubechecks.Msg.Sections.Groups.{checks_of, header_for, IsSection, build_app_sections_lem}
use kubechecks.Msg.Comment.{CommentOptions, build_comment, chunk_config, build_footer, comment_cap}
use kubechecks.Msg.Comment.Bounds.{build_comment_bounds}

abbrev config : ChunkConfig
config = record { max_length = pos 400; max_chunks = 2; identifier = codes "id"; footer = [] }

abbrev three : List Bytes
three = codes "aaaa" ∷ (codes "bbbb" ∷ (codes "cc" ∷ []))

pack_sections_lem_example :
    (concat (pack_sections three (pos 8)) ≡ three)
    × All (IsChunk (pos 8)) (pack_sections three (pos 8))
pack_sections_lem_example = pack_sections_lem three (pos 8)

abbrev chunks : List (List Bytes)
chunks = (codes "aaaa" ∷ []) ∷ ((codes "bbbb" ∷ (codes "cc" ∷ [])) ∷ [])

pack_sections_fewest_example : length (pack_sections (concat chunks) (pos 8)) ≤ length chunks
unfolding total_length
pack_sections_fewest_example = pack_sections_fewest (pos 8) chunks (omega arith, (omega arith, tt))

config-TailsFit : TailsFit config 400
unfolding footer_separator truncated_note continued_in
config-TailsFit = (omega arith, omega arith)

split_into_chunks_uncut_example : split_into_chunks three config ≡ (
    uncut_from config
      (ltb 2 (length (pack_sections three (section_budget config))))
      (length (take 2 (pack_sections three (section_budget config))))
      0
      (take 2 (pack_sections three (section_budget config))))
unfolding section_budget ◌-ℤ◌ chunk_header itoa continued_from continued_in footer_separator
    truncated_note
split_into_chunks_uncut_example =
    split_into_chunks_uncut three config (λ e. cc) (omega arith) (omega arith)
      (omega arith, (omega arith, (omega arith, tt)))

abbrev no_emoji : CommitState → Bytes
no_emoji s = []

abbrev failing : Result
failing = record {
  state = 5;
  summary = codes "s";
  details = codes "d";
  no_changes_detected = false;
  sticky = false;
}

build_app_sections_lem_example :
    (sections : List Bytes) × (build_app_sections no_emoji (codes "app") (failing ∷ []) (pos 200)
      ≡ some sections)
    × All
        (IsSection
          (header_for no_emoji (codes "app") (failing ∷ []))
          (pos 200)
          (checks_of no_emoji (failing ∷ [])))
        sections
build_app_sections_lem_example =
    build_app_sections_lem no_emoji (codes "app") (failing ∷ []) (pos 200)

abbrev options : CommentOptions
options = record {
  env = record { hostname = []; duration = []; git_commit = [] };
  commit_sha = codes "c";
  label_filter = [];
  show_debug_info = false;
  identifier = codes "id";
  apps_checked = 1;
  total_checked = 1;
  max_length = pos 400;
  max_comments = pos 3;
}

abbrev message : Message
message = record (new_message (codes "m") 1 2 no_emoji) { apps = (codes "app", failing ∷ []) ∷ [] }

build_comment_bounds_example :
    (comments : List Bytes) × (build_comment message options ≡ some comments)
    × All (λ c. length c ≤ 400) comments
    × (1 ≤ length comments)
    × (length comments ≤ comment_cap (pos 3))
unfolding footer_separator truncated_note continued_in build_footer chunk_config
build_comment_bounds_example =
    build_comment_bounds message options 400 refl (omega arith, omega arith)

abbrev block : CheckBlock
block = record { summary = codes "s"; details = codes "one\ntwo\nthree\nfour\n" }
