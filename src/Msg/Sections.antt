-- ===== src/Msg/Sections.antt =====
-- pkg/msg/message.go, `buildAppSections` and `splitCheck`: the results of an app become sections.
pub mod Checks
pub mod Groups
pub mod Lengths
use kubechecks.Common.{
  ℕ, zero, suc, ◌+◌, Bytes, Bool, true, false, ◌&&◌, not, List, [], ◌∷◌, ◌++◌, ℤ, pos, leb_ℤ, leb,
  ltb, ◌==◌, ◌-ℤ◌, Option, none, some, pos_part, neg_part, length, if◌then◌else◌, is_empty, itoa,
  codes, join, map,
}
use kubechecks.CommitState.{
  CommitState, state_none, state_skip, state_success, bare_string, worst_state,
}
use kubechecks.Msg.Store.{Result, AppResults, has_sticky}
use kubechecks.Msg.Split.{split_details_at_lines}

unfoldable pub app_wrap_open : Bytes
app_wrap_open = codes "<details>\n<summary>\n\n"

unfoldable pub app_wrap_close : Bytes
app_wrap_close = codes "\n</summary>\n\n"

unfoldable pub app_wrap_end : Bytes
app_wrap_end = codes "</details>"

unfoldable pub check_separator : Bytes
check_separator = codes "\n\n---\n\n"

unfoldable pub part_suffix : ℕ → ℕ → Bytes
part_suffix part total =
    codes " (Part " ++ (itoa part ++ (codes " of " ++ (itoa total ++ codes ")")))

pub record CheckBlock : Type 0 where
  pub summary : Bytes
  pub details : Bytes

-- `fmt.Sprintf(checkWrapFmt, c.summary, c.details)`
unfoldable pub render_check : CheckBlock → Bytes
render_check c =
    codes "<details>\n<summary>"
    ++ (c.summary ++ (codes "</summary>\n\n" ++ (c.details ++ codes "\n</details>")))

unfoldable pub wrap_app_section : Bytes → List Bytes → Bytes
wrap_app_section app_header checks =
    app_wrap_open
    ++ (app_header ++ (app_wrap_close ++ (join checks check_separator ++ app_wrap_end)))

-- The variables of the loop over the results.
pub record Collected : Type 0 where
  pub checks : List CheckBlock
  pub app_state : CommitState
  pub no_changes : Bool

unfoldable pub check_summary : (CommitState → Bytes) → Result → Bytes
check_summary to_emoji check =
    if check.state == state_none
    then check.summary
    else check.summary
      ++ (codes " " ++ (bare_string check.state ++ (codes " " ++ to_emoji check.state)))

unfoldable pub collect_check : (CommitState → Bytes) → Collected → Result → Collected
collect_check to_emoji acc check =
    if check.no_changes_detected
    then record acc { no_changes = true }
    else if check.state == state_skip
    then acc
    else record acc {
      checks =
          acc.checks
          ++ record { summary = check_summary to_emoji check; details = check.details } ∷ [];
      app_state = worst_state acc.app_state check.state;
    }

unfoldable pub collect_checks : (CommitState → Bytes) → Collected → List Result → Collected
unfolding collect_check
collect_checks to_emoji acc [] = acc
collect_checks to_emoji acc (check ∷ results) =
    collect_checks to_emoji (collect_check to_emoji acc check) results

unfoldable pub app_header_of : (CommitState → Bytes) → Bytes → CommitState → Bytes
app_header_of to_emoji app_name app_state =
    codes "## ArgoCD Application Checks: `" ++ (app_name ++ (codes "` " ++ to_emoji app_state))

-- The loop of `splitCheck` on fuel: the parts of the details, split again with more room for the
-- suffix as long as the suffix of the last part does not fit; `none` means that the fuel ran out.
unfoldable pub split_parts : ℕ → Bytes → ℤ → ℕ → Option (List Bytes)
split_parts zero details room reserve = none
split_parts (suc fuel) details room reserve =
    let parts = split_details_at_lines details (room -ℤ pos reserve) in
    let needed = length (part_suffix (length parts) (length parts)) in
    let again = split_parts fuel details room needed in
    if leb needed reserve then some parts else again

-- `for i, part := range parts { … }`
unfoldable pub render_parts : Bytes → ℕ → ℕ → List Bytes → List Bytes
render_parts summary total i [] = []
render_parts summary total i (part ∷ parts) =
    render_check (record {
      summary = (if ltb 1 total then summary ++ part_suffix (i + 1) total else summary);
      details = part;
    })
    ∷ render_parts summary total (suc i) parts

-- The room for details, and enough fuel for it.
unfoldable pub details_room : CheckBlock → ℤ → ℤ
details_room c max_len =
    max_len -ℤ pos (length (render_check (record { summary = c.summary; details = [] })))

unfoldable pub split_check : CheckBlock → ℤ → Option (List Bytes)
split_check c max_len =
    let room = details_room c max_len in
    elim (split_parts (suc (suc (pos_part room))) c.details room (length (part_suffix 99 99))) [
      | none ↦ none
      | some parts ↦ some (render_parts c.summary (length parts) 0 parts)
    ]

-- The variables of the loop over the checks.
pub record Grouping : Type 0 where
  pub sections : List Bytes
  pub group : List Bytes
  pub group_len : ℕ

-- `flush`
unfoldable pub flush_group : Bytes → Grouping → Grouping
flush_group header g = record {
  sections = g.sections ++ wrap_app_section header g.group ∷ [];
  group = [];
  group_len = length (wrap_app_section header []);
}

-- A check that does not join the group: a group of its own, or sections of its parts.
unfoldable pub start_group : Bytes → ℤ → Grouping → CheckBlock → Option Grouping
start_group header max_section_len g c =
    let wrap_len = length (wrap_app_section header []) in
    let rendered = render_check c in
    let g' = if is_empty g.group then g else flush_group header g in
    if leb_ℤ (pos (wrap_len + length rendered)) max_section_len
    then some (record g' { group = rendered ∷ []; group_len = wrap_len + length rendered })
    else elim (split_check c (max_section_len -ℤ pos wrap_len)) [
      | none ↦ none
      | some parts ↦ some (record g' {
        sections = g'.sections ++ map (λ part. wrap_app_section header (part ∷ [])) parts;
      })
    ]

unfoldable pub group_check : Bytes → ℤ → Grouping → CheckBlock → Option Grouping
group_check header max_section_len g c =
    let rendered = render_check c in
    let added = length rendered + (if is_empty g.group then 0 else length check_separator) in
    if leb_ℤ (pos (g.group_len + added)) max_section_len
    then some (record g { group = g.group ++ rendered ∷ []; group_len = g.group_len + added })
    else start_group header max_section_len g c

unfoldable pub group_checks : Bytes → ℤ → Grouping → List CheckBlock → Option Grouping
group_checks header max_section_len g [] = some g
group_checks header max_section_len g (c ∷ checks) = elim (group_check header max_section_len g c) [
  | none ↦ none
  | some g' ↦ group_checks header max_section_len g' checks
]

-- `if len(group) > 0 || len(sections) == 0 { flush() }`
unfoldable pub finish_groups : Bytes → Grouping → List Bytes
finish_groups header g =
    (if is_empty g.group && not (is_empty g.sections) then g else flush_group header g).sections

-- `none` would mean that a loop ran out of fuel.
unfoldable pub build_app_sections :
    (CommitState → Bytes) → Bytes → AppResults → ℤ → Option (List Bytes)
build_app_sections to_emoji app_name results max_section_len =
    let acc =
      collect_checks to_emoji
        (record { checks = []; app_state = state_success; no_changes = false }) results in
    let header = app_header_of to_emoji app_name acc.app_state in
    let start : Grouping = record {
      sections = [];
      group = [];
      group_len = length (wrap_app_section header []);
    } in
    if acc.no_changes && not (has_sticky results)
    then some []
    else elim (group_checks header max_section_len start acc.checks) [
      | none ↦ none
      | some g ↦ some (finish_groups header g)
    ]
