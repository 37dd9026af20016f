-- ===== src/Msg/Comment/Bounds.antt =====
-- `BuildComment` ends, and what it returns respects the limits of the VCS.
use kubechecks.Common.{
  ℕ, ◌≤◌, Bytes, false, List, [], ◌∷◌, ◌++◌, ℤ, pos, negsuc, ltb, none, some, length, ◌≡◌, refl,
  inl, inr, arith, All, Bool-cases, lookup, bytes_instance, ◌∙◌,
}
use kubechecks.Msg.Store.{Message, is_deleted, AppResults}
use kubechecks.Msg.Sections.Groups.{build_app_sections_lem}
use kubechecks.Msg.Chunks.{
  section_budget, one_comment_budget, fits_one_comment, frame_chunks, split_into_chunks,
  pack_sections,
}
use kubechecks.Msg.Chunks.Frame.{TailsFit, split_into_chunks_bounds, frame_chunks_bounds}
use kubechecks.Msg.Comment.{
  CommentOptions, build_sections, build_sections_loop, build_comment, chunk_config, comment_cap,
  get_sorted_keys,
}

build_sections_loop_total :
    (m : Message) (budget : ℤ) (max_chunks : ℕ) (sections names : List Bytes)
    → (r : List Bytes) × (build_sections_loop m budget max_chunks sections names ≡ some r)
unfolding build_sections_loop
build_sections_loop_total m budget max_chunks sections [] = (sections, refl)
build_sections_loop_total m budget max_chunks sections (name ∷ names) =
    elim (Bool-cases (ltb max_chunks (length (pack_sections sections budget)))) [
      | inl full ↦ (sections, rw full)
      | inr room ↦ elim (Bool-cases (is_deleted m name)) [
        | inl gone ↦
            let (r, e) = build_sections_loop_total m budget max_chunks sections names in
            (r, rw (room, gone) e)
        | inr kept ↦
            let results : AppResults = elim (lookup name m.apps) [ none ↦ [] | some rs ↦ rs ] in
            let (more, f, _) = build_app_sections_lem m.to_emoji name results budget in
            let (r, e) = build_sections_loop_total m budget max_chunks (sections ++ more) names in
            (r, rw (room, kept, f) e)
      ]
    ]

build_sections_total :
    (m : Message) (names : List Bytes) (budget : ℤ) (max_chunks : ℕ)
    → (r : List Bytes) × (build_sections m names budget max_chunks ≡ some r)
unfolding build_sections
build_sections_total m names budget max_chunks =
    build_sections_loop_total m budget max_chunks [] names

-- The cap on comments is a number from 1 to 999.
pub comment_cap_range : (n : ℤ) → (1 ≤ comment_cap n) × (comment_cap n ≤ 999)
unfolding comment_cap
comment_cap_range (pos n) = ground arith
comment_cap_range (negsuc n) = omega arith

chunk_config-fields :
    (opts : CommentOptions)
    → ((chunk_config opts).max_length ≡ opts.max_length)
      × ((chunk_config opts).max_chunks ≡ comment_cap opts.max_comments)
unfolding chunk_config
chunk_config-fields opts = (refl, refl)

-- A report is always built. It has at least one comment and at most as many as asked for, 999 at
-- most, and every comment is within the limit of the VCS, if the tails alone are.
pub build_comment_bounds :
    (m : Message) (opts : CommentOptions) (n : ℕ)
    → opts.max_length ≡ pos n
    → TailsFit (chunk_config opts) n
    → (comments : List Bytes) × (build_comment m opts ≡ some comments)
      × All (λ c. length c ≤ n) comments
      × (1 ≤ length comments)
      × (length comments ≤ comment_cap opts.max_comments)
unfolding build_comment
build_comment_bounds m opts n e h =
    let names = get_sorted_keys m.apps in
    let cfg = chunk_config opts in
    let (one, f) = build_sections_total m names (one_comment_budget cfg) 1 in
    let (many, g) = build_sections_total m names (section_budget cfg) cfg.max_chunks in
    let fields = chunk_config-fields opts in
    let range = comment_cap_range opts.max_comments in
    elim (Bool-cases (fits_one_comment cfg one)) [
      | inl fits ↦
          let (bound, least, most) = frame_chunks_bounds (one ∷ []) false cfg n (fields.0 ∙ e) h in
          (
            frame_chunks (one ∷ []) false cfg,
            rw (f, fits, build_comment) refl,
            bound,
            least,
            omega (arith, most, range.0),
          )
      | inr large ↦
          let (bound, least, most) =
            split_into_chunks_bounds many cfg n (fields.0 ∙ e) h
              (omega (arith, fields.1, range.0)) in
          (
            split_into_chunks many cfg,
            rw (f, large, g, build_comment) refl,
            bound,
            least,
            omega (arith, most, fields.1),
          )
    ]
