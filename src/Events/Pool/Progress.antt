-- ===== src/Events/Pool/Progress.antt =====
-- pkg/events/check.go: when the workers can go on, and when they cannot.
use kubechecks.Common.{
  ℕ, ◌≤◌, ◌<◌, false, List, [], ◌∷◌, ◌++◌, none, some, ◌≡◌, ◌≢◌, refl, sym, ap, ◌∙◌, subst, arith,
  length, List-cases, Option-cases, inl, inr, All,
}
use kubechecks.Events.Pool.{
  App, Job, Pool, start_pool, is_added, has_room, queue_app, Step, queues, takes, requeues,
  finishes, Reach,
}
use kubechecks.Events.Pool.Counters.{Reach-Counted}

queue_app_room :
    (s : Pool) (app : App) → length s.channel < s.capacity → (p : Pool) × (queue_app s app ≡ some p)
unfolding queue_app has_room
queue_app_room s app room = elim (Option-cases (queue_app s app)) [
  | inl waits ↦ absurd (ground arith)
  | inr (p, e) ↦ (p, e)
]

queue_app_full :
    (s : Pool) (app : App)
    → s.idle ≡ 0
    → s.capacity ≤ length s.channel
    → is_added s app ≡ false
    → queue_app s app ≡ none
unfolding queue_app has_room
queue_app_full s app busy full new = ground arith

-- A job whose next application is not added as it is.
abbrev pub IsBlocked : Pool → Job → Type 0
IsBlocked s job =
    (app : App) × (rest : List App) × (job.pending ≡ app ∷ rest) × (is_added s app ≡ false)

All-at :
    (s : Pool) (before : List Job) (job : Job) (after : List Job)
    → All (IsBlocked s) (before ++ job ∷ after)
    → IsBlocked s job
All-at s [] job after h = h.0
All-at s (j ∷ before) job after h = All-at s before job after h.1

-- As long as the channel has room, a check with work left can go on.
pub pool_progress :
    (apps : List App) (capacity n : ℕ) (s : Pool)
    → Reach (start_pool apps capacity n) s
    → length s.channel < s.capacity
    → s.wg ≢ 0
    → (t : Pool) × Step s t
pool_progress apps capacity n s r room busy =
    let v = Reach-Counted apps capacity n r in
    elim (List-cases s.jobs) [
      | inr (job, others, e) ↦ elim (List-cases job.pending) [
        | inl done ↦ (_, finishes [] job others e done refl)
        | inr (app, rest, d) ↦
            let (p, q) = queue_app_room s app room in
            (_, requeues [] job others app rest p e d q refl)
      ]
      | inl e ↦ elim (List-cases s.channel) [
        | inl c ↦ absurd (busy (omega (arith, ap length e, ap length c)))
        | inr (app, rest, c) ↦ (_, takes n app rest [] (omega (arith, ap length e)) c refl)
      ]
    ]

no-Step :
    (s t : Pool)
    → s.idle ≡ 0
    → s.capacity ≤ length s.channel
    → All (IsBlocked s) s.jobs
    → ((app : App) (rest : List App) → s.to_queue ≡ app ∷ rest → is_added s app ≡ false)
    → ¬ Step s t
no-Step s t i f b q (queues app rest p e g h) =
    cc (sym (queue_app_full s app i f (q app rest e)) ∙ g)
no-Step s t i f b q (takes n app rest pending e c h) = absurd (omega arith)
no-Step s t i f b q (requeues before job after app rest p e d g h) =
    let (app', rest', d', new) = All-at s before job after (subst (All (IsBlocked s)) e b) in
    let same : app' ≡ app = cc (sym d' ∙ d) in
    cc (sym (queue_app_full s app i f (subst (λ a. is_added s a ≡ false) same new)) ∙ g)
no-Step s t i f b q (finishes before job after e d h) =
    let (app', rest', d', new) = All-at s before job after (subst (All (IsBlocked s)) e b) in
    cc (sym d' ∙ d)

-- If a check comes to where every worker is busy with an application whose checks queue another one
-- while the channel is full, and what `process` has still to queue, if anything, is new as well, then
-- nothing can go on, and the wait group that `process` waits for is not at zero: the check never ends.
pub pool_stuck :
    (apps : List App) (capacity n : ℕ) (s t : Pool)
    → Reach (start_pool apps capacity n) s
    → s.idle ≡ 0
    → s.capacity ≤ length s.channel
    → All (IsBlocked s) s.jobs
    → ((app : App) (rest : List App) → s.to_queue ≡ app ∷ rest → is_added s app ≡ false)
    → (¬ Step s t) × (s.wg ≢ 0)
pool_stuck apps capacity n s t r i f b q =
    let v = Reach-Counted apps capacity n r in
    (no-Step s t i f b q, λ e. omega (arith, v.waited, v.manned, i, e))
