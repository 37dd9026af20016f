-- ===== src/Events/Reviews.antt =====
-- pkg/events/check.go: the AI reviews of a check: the cap on their number, the results that the
-- workers add, and the comment that is made of them. The reviewer is not modelled: what it answers
-- is an argument. Counters are `int32` and kept as their bit patterns.
pub mod Cap
use kubechecks.Common.{
  ℕ, ◌+◌, ◌%◌, ◌^◌, Bytes, codes, Bool, true, false, List, [], ◌∷◌, ◌++◌, Option, none, some, ℤ,
  pos, negsuc, lookup, insert, bytes_instance, length, ltb, ◌==◌, itoa, if◌then◌else◌, ◌&&◌, leb_ℤ,
}
use kubechecks.CommitState.{CommitState, state_none, worst_state}
use kubechecks.Msg.Store.{Result}
use kubechecks.Msg.Comment.{insert_key}

-- `AIReviewHardMaxApps`
abbrev pub hard_max_apps : ℕ
hard_max_apps = 50

-- `effectiveAIReviewMax` for the configured maximum.
unfoldable pub effective_max : ℤ → ℕ
effective_max (negsuc n) = hard_max_apps
effective_max (pos n) =
    if n == 0 then hard_max_apps else if ltb hard_max_apps n then hard_max_apps else n

pub record Slots : Type 0 where
  pub review_count : ℕ
  pub review_skipped : ℕ

-- `claimAIReviewSlot`; the sum is read as a signed number, and a negative one is within the cap.
unfoldable pub claim_slot : ℤ → Slots → Bool × Slots
unfolding effective_max
claim_slot max_apps s =
    let n = (s.review_count + 1) % 2 ^ 32 in
    if ltb n (2 ^ 31) && ltb (effective_max max_apps) n
    then (false, record { review_count = n; review_skipped = (s.review_skipped + 1) % 2 ^ 32 })
    else (true, record s { review_count = n })

-- `vcs.ReviewSuggestion`
pub record Suggestion : Type 0 where
  pub path : Bytes
  pub start_line : ℕ
  pub end_line : ℕ
  pub body : Bytes
  pub suggestion : Bytes

pub record AppReview : Type 0 where
  pub app_name : Bytes
  pub result : Result
  pub suggestions : List Suggestion

-- `fmt.Sprintf("%s:%d:%d:%s", …)`
unfoldable pub suggestion_key : Suggestion → Bytes
suggestion_key s =
    s.path
    ++ (codes ":"
        ++ (itoa s.start_line ++ (codes ":" ++ (itoa s.end_line ++ (codes ":" ++ s.suggestion)))))

-- The keys that were seen, and the suggestions that are kept.
pub record Kept : Type 0 where
  pub seen : List (Bytes × Bool)
  pub kept : List Suggestion

unfoldable pub keep_suggestion : Kept → Suggestion → Kept
keep_suggestion k s = elim (lookup (suggestion_key s) k.seen) [
  | some b ↦ k
  | none ↦ record { seen = insert (suggestion_key s) true k.seen; kept = k.kept ++ s ∷ [] }
]

unfoldable pub keep_suggestions : Kept → List Suggestion → Kept
unfolding keep_suggestion
keep_suggestions k [] = k
keep_suggestions k (s ∷ ss) = keep_suggestions (keep_suggestion k s) ss

-- The loop over the results: the reviews by app, the worst state, and the suggestions.
unfoldable pub collect_reviews :
    List (Bytes × Bytes)
    → CommitState
    → Kept
    → List AppReview
    → List (Bytes × Bytes) × CommitState × Kept
collect_reviews reviews worst k [] = (reviews, worst, k)
collect_reviews reviews worst k (r ∷ rs) =
    collect_reviews (insert r.app_name r.result.details reviews) (worst_state worst r.result.state)
      (keep_suggestions k r.suggestions) rs

unfoldable pub sorted_names : List (Bytes × Bytes) → List Bytes
sorted_names [] = []
sorted_names ((name, text) ∷ reviews) = insert_key name (sorted_names reviews)

unfoldable pub raw_reviews : List (Bytes × Bytes) → List Bytes → Bytes
raw_reviews reviews [] = []
raw_reviews reviews (name ∷ names) =
    let text : Bytes = elim (lookup name reviews) [ none ↦ [] | some t ↦ t ] in
    codes "<details>\n<summary><code>"
    ++ (name
        ++ (codes "</code></summary>\n\n"
            ++ (text ++ (codes "\n\n</details>\n\n" ++ raw_reviews reviews names))))

-- `buildRawReviewBody`
unfoldable pub build_raw_review_body : List (Bytes × Bytes) → Bytes
unfolding raw_reviews sorted_names
build_raw_review_body reviews = raw_reviews reviews (sorted_names reviews)

-- The notice behind the reviews if some apps were skipped.
unfoldable pub cap_notice : ℤ → ℕ → ℕ → ℕ → Bytes
cap_notice max_apps reviewed total skipped =
    let effective = effective_max max_apps in
    let hard = effective == hard_max_apps && leb_ℤ (pos (hard_max_apps + 1)) max_apps in
    codes "\n---\n:warning: **AI review cap reached** "
    ++ ((0xe2 ∷ 0x80 ∷ 0x94 ∷ [])
        ++ (codes " reviewed "
            ++ (itoa reviewed
                ++ (codes " of "
                    ++ (itoa total
                        ++ (codes " affected apps ("
                            ++ ((if hard then codes "hard limit" else codes "configured limit")
                                ++ (codes ": "
                                    ++ (itoa effective
                                        ++ (codes "). "
                                            ++ (itoa skipped
                                                ++ codes " apps were skipped.\n")))))))))))

-- The first line of the comment, to the end of its title.
unfoldable pub review_title : Bytes → Bytes
review_title identifier =
    codes "## Kubechecks "
    ++ (identifier ++ (codes " Report " ++ ((0xe2 ∷ 0x80 ∷ 0x94 ∷ []) ++ codes " AI Review")))

-- `buildAIReviewComment`. `aggregate` is the reviewer's answer, with `none` for an error, and no
-- reviewer at all where reviews are not enabled. `skipped` is a positive `int32`.
unfoldable pub build_review_comment :
    Bytes
    → ℤ
    → Option (List (Bytes × Bytes) → Option Bytes)
    → ℕ
    → Slots
    → List AppReview
    → Bytes × CommitState × List Suggestion
unfolding collect_reviews build_raw_review_body cap_notice review_title
build_review_comment identifier max_apps aggregate total s [] =
    (review_title identifier ++ codes "\nNo review results.", state_none, [])
build_review_comment identifier max_apps aggregate total s (r ∷ rs) =
    let (reviews, worst, k) =
      collect_reviews [] state_none (record { seen = []; kept = [] }) (r ∷ rs) in
    let raw = build_raw_review_body reviews in
    let several : Bytes = elim aggregate [
      | none ↦ raw
      | some ask ↦ elim (ask reviews) [ none ↦ raw | some text ↦ text ]
    ] in
    let body = if ltb 1 (length reviews) then several else raw in
    let notice : Bytes =
      if ltb 0 s.review_skipped && ltb s.review_skipped (2 ^ 31)
      then cap_notice max_apps (length (r ∷ rs)) total s.review_skipped
      else [] in
    (review_title identifier ++ (codes "\n\n" ++ (body ++ notice)), worst, k.kept)
