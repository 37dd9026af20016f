-- ===== src/Events/Pool/Counters.antt =====
-- pkg/events/check.go: the counters of a check fit its channel and its workers.
use kubechecks.Common.{
  max, List-cases, ◌<◌, ap, ℕ, suc, ◌+◌, ◌≤◌, true, false, List, [], ◌∷◌, ◌++◌, some, ◌≡◌, sym, ap,
  ◌∙◌, subst, arith, length, length-append, insert, bytes_instance, Bool-cases, inl, inr, ◌⊎◌,
}
use kubechecks.Events.Pool.{
  App, Job, Pool, start_pool, is_added, has_room, queue_app, Step, queues, takes, requeues,
  finishes, Reach, here, next,
}

-- The counters fit the state.
pub record Counted (workers : ℕ) (s : Pool) : Type 0 where
  pub waited : s.wg ≡ length s.channel + length s.jobs
  pub sent : s.apps_sent ≡ s.wg + length s.processed
  pub bounded : length s.channel ≤ max 1 s.capacity
  pub manned : s.idle + length s.jobs ≡ workers

length-split :
    (before : List Job) (job : Job) (after : List Job)
    → length (before ++ job ∷ after) ≡ suc (length (before ++ after))
length-split before job after =
    omega (arith, length-append before (job ∷ after), length-append before after)

-- What `queueApp` does when it does not wait.
has_room_lem : (s : Pool) → has_room s ≡ true → length s.channel < max 1 s.capacity
unfolding has_room
has_room_lem s h = elim (List-cases s.channel) [
  | inl e ↦ omega (arith, ap length e)
  | inr (x, xs, e) ↦ ground (arith, h, e)
]

pub queue_app-cases :
    (s : Pool) (app : App) (p : Pool)
    → queue_app s app ≡ some p
    → ((is_added s app ≡ true) × (p ≡ s))
      ⊎ ((is_added s app ≡ false)
          × (has_room s ≡ true)
          × (p ≡ record s {
            channel = s.channel ++ app ∷ [];
            wg = s.wg + 1;
            apps_sent = s.apps_sent + 1;
            added_apps_set = insert app.name app s.added_apps_set;
          }))
unfolding queue_app
queue_app-cases s app p e = elim (Bool-cases (is_added s app)) [
  | inl old ↦ inl (old, ground arith)
  | inr new ↦ elim (Bool-cases (has_room s)) [
    | inl room ↦ inr (new, room, ground arith)
    | inr full ↦ absurd (ground arith)
  ]
]

queue_app-Counted :
    (workers : ℕ) (s : Pool) (app : App) (p : Pool)
    → Counted workers s
    → queue_app s app ≡ some p
    → Counted workers p
queue_app-Counted workers s app p v e = elim (queue_app-cases s app p e) [
  | inl (old, same) ↦ subst (Counted workers) (sym same) v
  | inr (new, room, grown) ↦ subst (Counted workers) (sym grown) (record {
    waited = omega (arith, length-append s.channel (app ∷ []));
    sent = omega arith;
    bounded = omega (arith, length-append s.channel (app ∷ []), has_room_lem s room);
    manned = v.manned;
  })
]

pub jobs-queue_app : (s : Pool) (app : App) (p : Pool) → queue_app s app ≡ some p → p.jobs ≡ s.jobs
jobs-queue_app s app p e = elim (queue_app-cases s app p e) [
  | inl (old, same) ↦ ap (λ (q : Pool). q.jobs) same
  | inr (new, room, grown) ↦ ap (λ (q : Pool). q.jobs) grown
]

Step-Counted : (workers : ℕ) {s t : Pool} → Step s t → Counted workers s → Counted workers t
Step-Counted workers {s} {t} (queues app rest p e q f) v =
    let w = queue_app-Counted workers s app p v q in
    subst (Counted workers) (sym f)
      (record { waited = w.waited; sent = w.sent; bounded = w.bounded; manned = w.manned })
Step-Counted workers {s} {t} (takes n app rest pending e c f) v =
    let k = ap length c in
    subst (Counted workers) (sym f) (record {
      waited = omega (arith, k);
      sent = omega arith;
      bounded = omega (arith, k);
      manned = omega arith;
    })
Step-Counted workers {s} {t} (requeues before job after app rest p e d q f) v =
    let w = queue_app-Counted workers s app p v q in
    let job' : Job = record { app = job.app; pending = rest } in
    let k : length p.jobs ≡ length (before ++ job' ∷ after) =
      ap length (jobs-queue_app s app p q ∙ e)
      ∙ omega (arith, length-split before job after, length-split before job' after) in
    subst (Counted workers) (sym f)
      (record { waited = omega arith; sent = w.sent; bounded = w.bounded; manned = omega arith })
Step-Counted workers {s} {t} (finishes before job after e d f) v =
    let k : length s.jobs ≡ suc (length (before ++ after)) =
      ap length e ∙ length-split before job after in
    subst (Counted workers) (sym f) (record {
      waited = omega arith;
      sent = omega arith;
      bounded = v.bounded;
      manned = omega arith;
    })

start_pool-Counted :
    (apps : List App) (capacity n : ℕ) → Counted (suc n) (start_pool apps capacity n)
unfolding start_pool
start_pool-Counted apps capacity n = omega arith

pub Reach-Counted :
    (apps : List App) (capacity n : ℕ) {s : Pool}
    → Reach (start_pool apps capacity n) s
    → Counted (suc n) s
Reach-Counted apps capacity n here = start_pool-Counted apps capacity n
Reach-Counted apps capacity n (next r st) =
    Step-Counted (suc n) st (Reach-Counted apps capacity n r)
