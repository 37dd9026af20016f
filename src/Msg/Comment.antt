-- ===== src/Msg/Comment.antt =====
-- pkg/msg/message.go, `BuildComment`: from the message to the comments.
pub mod Bounds
use kubechecks.Common.{
  ℕ, zero, suc, ◌+◌, Bytes, Bool, true, false, ◌||◌, ◌&&◌, List, [], ◌∷◌, ◌++◌, ℤ, pos, leb_ℤ, ltb,
  ◌==◌, Option, none, some, length, if◌then◌else◌, itoa, codes, lookup, bytes_instance, is_empty,
  negsuc,
}
use kubechecks.Msg.Store.{Message, AppResults, is_deleted}
use kubechecks.Msg.Sections.{build_app_sections}
use kubechecks.Msg.Chunks.{
  ChunkConfig, max_comments_per_check, one_comment_budget, section_budget, fits_one_comment,
  frame_chunks, split_into_chunks, pack_sections,
}

-- What the footer takes from outside: the name of the host, the time since the start, rounded to
-- seconds, and the commit of the build.
pub record FooterEnv : Type 0 where
  pub hostname : Bytes
  pub duration : Bytes
  pub git_commit : Bytes

pub record CommentOptions : Type 0 where
  pub env : FooterEnv
  pub commit_sha : Bytes
  pub label_filter : Bytes
  pub show_debug_info : Bool
  pub identifier : Bytes
  pub apps_checked : ℕ
  pub total_checked : ℕ
  pub max_length : ℤ
  pub max_comments : ℤ

unfoldable pub build_footer : CommentOptions → Bytes
build_footer opts =
    let env_str = if is_empty opts.label_filter then [] else codes ", Env: " ++ opts.label_filter in
    if opts.show_debug_info
    then codes "<small> _Done: Pod: "
      ++ (opts.env.hostname
          ++ (codes ", Dur: "
              ++ (opts.env.duration
                  ++ (codes ", SHA: "
                      ++ (opts.env.git_commit
                          ++ (env_str
                              ++ (codes "_ <small>, Apps Checked: "
                                  ++ (itoa opts.apps_checked
                                      ++ (codes ", Total Checks: "
                                          ++ (itoa opts.total_checked ++ codes "\n"))))))))))
    else codes "<small> _Done. CommitSHA: " ++ (opts.commit_sha ++ codes "_ <small>\n")

-- The order of Go's strings, byte by byte.
unfoldable pub bytes_le : Bytes → Bytes → Bool
bytes_le [] t = true
bytes_le (a ∷ s) [] = false
bytes_le (a ∷ s) (b ∷ t) = ltb a b || (a == b && bytes_le s t)

unfoldable pub insert_key : Bytes → List Bytes → List Bytes
unfolding bytes_le
insert_key k [] = k ∷ []
insert_key k (j ∷ js) = let rest = insert_key k js in if bytes_le k j then k ∷ j ∷ js else j ∷ rest

-- `getSortedKeys(m)`, `slices.Sort` being an insertion sort
unfoldable pub get_sorted_keys : List (Bytes × AppResults) → List Bytes
unfolding insert_key
get_sorted_keys [] = []
get_sorted_keys ((k, v) ∷ m) = insert_key k (get_sorted_keys m)

-- The loop of `buildSections` over the names that are left.
unfoldable pub build_sections_loop : Message → ℤ → ℕ → List Bytes → List Bytes → Option (List Bytes)
build_sections_loop m budget max_chunks sections [] = some sections
build_sections_loop m budget max_chunks sections (name ∷ names) =
    let results : AppResults = elim (lookup name m.apps) [ none ↦ [] | some rs ↦ rs ] in
    let skip = build_sections_loop m budget max_chunks sections names in
    let add : Option (List Bytes) = elim (build_app_sections m.to_emoji name results budget) [
      | none ↦ none
      | some more ↦ build_sections_loop m budget max_chunks (sections ++ more) names
    ] in
    if ltb max_chunks (length (pack_sections sections budget))
    then some sections
    else if is_deleted m name
    then skip
    else add

unfoldable pub build_sections : Message → List Bytes → ℤ → ℕ → Option (List Bytes)
unfolding build_sections_loop
build_sections m names budget max_chunks = build_sections_loop m budget max_chunks [] names

-- `opts.MaxComments`, which is at most 999 and is 999 if it is not positive
unfoldable pub comment_cap : ℤ → ℕ
comment_cap (pos n) = if n == 0 || ltb max_comments_per_check n then max_comments_per_check else n
comment_cap (negsuc n) = max_comments_per_check

unfoldable pub chunk_config : CommentOptions → ChunkConfig
unfolding comment_cap build_footer
chunk_config opts = record {
  max_length = opts.max_length;
  max_chunks = comment_cap opts.max_comments;
  identifier = opts.identifier;
  footer = build_footer opts;
}

unfoldable pub build_comment : Message → CommentOptions → Option (List Bytes)
build_comment m opts =
    let names = get_sorted_keys m.apps in
    let cfg = chunk_config opts in
    let several : Option (List Bytes) =
      elim (build_sections m names (section_budget cfg) cfg.max_chunks) [
        | none ↦ none
        | some sections ↦ some (split_into_chunks sections cfg)
      ] in
    elim (build_sections m names (one_comment_budget cfg) 1) [
      | none ↦ none
      | some sections ↦
          if fits_one_comment cfg sections
          then some (frame_chunks (sections ∷ []) false cfg)
          else several
    ]
