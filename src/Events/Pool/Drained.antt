-- ===== src/Events/Pool/Drained.antt =====
-- pkg/events/check.go: what holds when `wg.Wait` returns.
use kubechecks.Common.{
  ℕ, suc, Bool, true, false, ◌||◌, List, [], ◌∷◌, ◌++◌, some, ◌≡◌, refl, sym, ap, ◌∙◌, subst, arith,
  length, lookup, insert, lookup-insert, bytes_eq_iff, bytes_instance, Option-cases, List-cases,
  Bool-cases, inl, inr,
}
use kubechecks.Events.Pool.{
  App, same_app, Job, Pool, start_pool, is_added, queue_app, Step, queues, takes, requeues,
  finishes, Reach, here, next,
}
use kubechecks.Events.Pool.Counters.{queue_app-cases, jobs-queue_app, Counted, Reach-Counted}

abbrev pub has_app : App → List App → Bool
has_app a [] = false
has_app a (b ∷ bs) = same_app b a || has_app a bs

abbrev pub in_jobs : App → List Job → Bool
in_jobs a [] = false
in_jobs a (j ∷ js) = same_app j.app a || in_jobs a js

-- The application was sent: it waits, is being processed, or has been.
abbrev pub is_sent : App → Pool → Bool
is_sent a s = has_app a s.channel || in_jobs a s.jobs || has_app a s.processed

has_app-append :
    (a : App) (bs cs : List App) → has_app a (bs ++ cs) ≡ (has_app a bs || has_app a cs)
has_app-append a [] cs = refl
has_app-append a (b ∷ bs) cs = ground (arith, has_app-append a bs cs)

in_jobs-append :
    (a : App) (js ks : List Job) → in_jobs a (js ++ ks) ≡ (in_jobs a js || in_jobs a ks)
in_jobs-append a [] ks = refl
in_jobs-append a (j ∷ js) ks = ground (arith, in_jobs-append a js ks)

same_app-eq : (a b : App) → same_app a b ≡ true → a ≡ b
unfolding same_app
same_app-eq a b h = ground (arith, bytes_eq_iff a.name b.name, bytes_eq_iff a.spec b.spec)

same_app_refl : (a : App) → same_app a a ≡ true
unfolding same_app
same_app_refl a = ground (arith, bytes_eq_iff a.name a.name, bytes_eq_iff a.spec a.spec)

to_queue-queue_app :
    (s : Pool) (app : App) (p : Pool) → queue_app s app ≡ some p → p.to_queue ≡ s.to_queue
to_queue-queue_app s app p e = elim (queue_app-cases s app p e) [
  | inl (old, same) ↦ ap (λ (q : Pool). q.to_queue) same
  | inr (new, room, grown) ↦ ap (λ (q : Pool). q.to_queue) grown
]

-- Everything that was added was sent.
abbrev IsKnown : Pool → Type 0
IsKnown s = (b : App) → lookup b.name s.added_apps_set ≡ some b → is_sent b s ≡ true

is_sent-queue_app :
    (s : Pool) (app : App) (p : Pool) (b : App)
    → queue_app s app ≡ some p
    → is_sent b s ≡ true
    → is_sent b p ≡ true
is_sent-queue_app s app p b e h = elim (queue_app-cases s app p e) [
  | inl (old, same) ↦ rw same h
  | inr (new, room, grown) ↦ rw grown (ground (arith, has_app-append b s.channel (app ∷ [])))
]

queue_app_self :
    (s : Pool) (app : App) (p : Pool) → IsKnown s → queue_app s app ≡ some p → is_sent app p ≡ true
unfolding is_added
queue_app_self s app p k e = elim (queue_app-cases s app p e) [
  | inr (new, room, grown) ↦
      rw grown (ground (arith, has_app-append app s.channel (app ∷ []), same_app_refl app))
  | inl (old, same) ↦ rw same (elim (Option-cases (lookup app.name s.added_apps_set)) [
    | inl none_there ↦ absurd (ground arith)
    | inr (was, found) ↦
        let e' : was ≡ app = ground (arith, same_app-eq was app) in k app (found ∙ ap some e')
  ])
]

queue_app-IsKnown :
    (s : Pool) (app : App) (p : Pool) → IsKnown s → queue_app s app ≡ some p → IsKnown p
queue_app-IsKnown s app p k e b h = elim (queue_app-cases s app p e) [
  | inl (old, same) ↦ rw same (k b (rw (← same) h))
  | inr (new, room, grown) ↦
      let self = queue_app_self s app p k e in
      let h' : lookup b.name (insert app.name app s.added_apps_set) ≡ some b =
        ap (λ (q : Pool). lookup b.name q.added_apps_set) (sym grown) ∙ h in
      ground (
        arith,
        lookup-insert app.name b.name app s.added_apps_set,
        bytes_eq_iff app.name b.name,
        is_sent-queue_app s app p b e,
        k b,
      )
]

-- No step loses an application that was sent.
is_sent-Step : {s t : Pool} (b : App) → Step s t → is_sent b s ≡ true → is_sent b t ≡ true
is_sent-Step {s} {t} b (queues app rest p e q f) h = rw f (is_sent-queue_app s app p b q h)
is_sent-Step {s} {t} b (takes n app rest pending e c f) h =
    rw f (let c' = ap (has_app b) c in ground arith)
is_sent-Step {s} {t} b (requeues before job after app rest p e d q f) h =
    let job' : Job = record { app = job.app; pending = rest } in
    let js = ap (in_jobs b) (jobs-queue_app s app p q ∙ e) in
    rw f (
      ground (
        arith,
        is_sent-queue_app s app p b q h,
        in_jobs-append b before (job ∷ after),
        in_jobs-append b before (job' ∷ after),
      ))
is_sent-Step {s} {t} b (finishes before job after e d f) h =
    let js = ap (in_jobs b) e in
    rw f (ground (arith, in_jobs-append b before (job ∷ after), in_jobs-append b before after))

-- The set of added applications changes by `queueApp` alone.
Step-IsKnown : {s t : Pool} → Step s t → IsKnown s → IsKnown t
Step-IsKnown {s} {t} (queues app rest p e q f) k b h =
    let h' : lookup b.name p.added_apps_set ≡ some b =
      ap (λ (u : Pool). lookup b.name u.added_apps_set) (sym f) ∙ h in
    rw f (queue_app-IsKnown s app p k q b h')
Step-IsKnown {s} {t} (takes n app rest pending e c f) k b h =
    let h' : lookup b.name s.added_apps_set ≡ some b =
      ap (λ (u : Pool). lookup b.name u.added_apps_set) (sym f) ∙ h in
    is_sent-Step b (takes n app rest pending e c f) (k b h')
Step-IsKnown {s} {t} (requeues before job after app rest p e d q f) k b h =
    let h' : lookup b.name p.added_apps_set ≡ some b =
      ap (λ (u : Pool). lookup b.name u.added_apps_set) (sym f) ∙ h in
    let job' : Job = record { app = job.app; pending = rest } in
    let js = ap (in_jobs b) (jobs-queue_app s app p q ∙ e) in
    rw f (
      ground (
        arith,
        queue_app-IsKnown s app p k q b h',
        in_jobs-append b before (job ∷ after),
        in_jobs-append b before (job' ∷ after),
      ))
Step-IsKnown {s} {t} (finishes before job after e d f) k b h =
    let h' : lookup b.name s.added_apps_set ≡ some b =
      ap (λ (u : Pool). lookup b.name u.added_apps_set) (sym f) ∙ h in
    is_sent-Step b (finishes before job after e d f) (k b h')

-- An affected application is sent, or still to be queued.
abbrev is_due : App → Pool → Bool
is_due a s = is_sent a s || has_app a s.to_queue

to_queue-Step :
    {s t : Pool} (a : App) → Step s t → IsKnown s → is_due a s ≡ true → is_due a t ≡ true
to_queue-Step {s} {t} a (queues app rest p e q f) k h = elim (Bool-cases (is_sent a s)) [
  | inl sent ↦ let kept = is_sent-Step a (queues app rest p e q f) sent in ground arith
  | inr unsent ↦
      let there = ap (has_app a) e in
      let left = ap (λ (u : Pool). has_app a u.to_queue) f in
      elim (Bool-cases (same_app app a)) [
        | inl same ↦
            let self : is_sent a p ≡ true =
              subst (λ b. is_sent b p ≡ true) (same_app-eq app a same)
                (queue_app_self s app p k q) in
            rw f (ground arith)
        | inr other ↦ ground arith
      ]
]
to_queue-Step {s} {t} a (takes n app rest pending e c f) k h =
    let keep = is_sent-Step a (takes n app rest pending e c f) in
    let left = ap (λ (u : Pool). u.to_queue) f in ground (arith, keep, ap (has_app a) left)
to_queue-Step {s} {t} a (requeues before job after app rest p e d q f) k h =
    let keep = is_sent-Step a (requeues before job after app rest p e d q f) in
    let left = ap (λ (u : Pool). u.to_queue) f ∙ to_queue-queue_app s app p q in
    ground (arith, keep, ap (has_app a) left)
to_queue-Step {s} {t} a (finishes before job after e d f) k h =
    let keep = is_sent-Step a (finishes before job after e d f) in
    let left = ap (λ (u : Pool). u.to_queue) f in ground (arith, keep, ap (has_app a) left)

Reach-IsKnown :
    (apps : List App) (capacity n : ℕ) {s : Pool} → Reach (start_pool apps capacity n) s → IsKnown s
unfolding start_pool lookup
Reach-IsKnown apps capacity n here = λ b h. absurd (cc)
Reach-IsKnown apps capacity n (next r st) = Step-IsKnown st (Reach-IsKnown apps capacity n r)

Reach-is_due :
    (apps : List App) (capacity n : ℕ) (a : App) {s : Pool}
    → has_app a apps ≡ true
    → Reach (start_pool apps capacity n) s
    → is_due a s ≡ true
unfolding start_pool
Reach-is_due apps capacity n a h here = ground arith
Reach-is_due apps capacity n a h (next r st) =
    to_queue-Step a st (Reach-IsKnown apps capacity n r) (Reach-is_due apps capacity n a h r)

no_work : (n : ℕ) (s : Pool) → Counted (suc n) s → s.wg ≡ 0 → (s.channel ≡ []) × (s.jobs ≡ [])
no_work n s v w = elim (List-cases s.channel) [
  | inr (app, rest, e) ↦ absurd (omega (arith, ap length e))
  | inl e ↦ elim (List-cases s.jobs) [
    | inr (job, rest, f) ↦ absurd (omega (arith, ap length f))
    | inl f ↦ (e, f)
  ]
]

-- When `process` has queued its applications and `wg.Wait` returns, however the workers took their
-- turns: the channel is empty, no worker is busy, as many applications were processed as were sent,
-- and every affected application is among them.
pub pool_drained :
    (apps : List App) (capacity n : ℕ) (s : Pool) (a : App)
    → Reach (start_pool apps capacity n) s
    → s.to_queue ≡ []
    → s.wg ≡ 0
    → has_app a apps ≡ true
    → (s.channel ≡ [])
      × (s.jobs ≡ [])
      × (length s.processed ≡ s.apps_sent)
      × (has_app a s.processed ≡ true)
pool_drained apps capacity n s a r q w h =
    let v = Reach-Counted apps capacity n r in
    let due = Reach-is_due apps capacity n a h r in
    let (channel, jobs) = no_work n s v w in
    let queued = ap (has_app a) q in
    let waiting = ap (has_app a) channel in
    let working = ap (in_jobs a) jobs in (channel, jobs, omega arith, ground arith)
