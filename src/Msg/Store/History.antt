-- ===== src/Msg/Store/History.antt =====
-- Histories of a message: any sequence of the calls that change it.
use kubechecks.Common.{
  Bytes, Bool, true, false, none, some, List, [], ◌∷◌, ◌++◌, ◌≡◌, refl, lookup, sym, if◌then◌else◌,
  arith, lookup-insert, lookup-delete, bytes_eq, bytes_eq_iff, bytes_instance, append_assoc,
  append-nil, ◌∙◌, ap, ℕ, subst,
}
use kubechecks.CommitState.{CommitState}
use kubechecks.Msg.Store.{
  Result, Message, has_sticky, is_deleted, remove_app, add_new_app, add_to_app_message, ensure_app,
  append_result, new_message,
}

pub data Call : Type 0 where
  adds : Bytes → Call
  removes : Bytes → Call
  reports : Bytes → Result → Call

unfoldable pub step : Message → Call → Message
step m (adds app) = add_new_app m app
step m (removes app) = remove_app m app
step m (reports app r) = add_to_app_message m app r

unfoldable pub run : Message → List Call → Message
run m [] = m
run m (c ∷ cs) = run (step m c) cs

-- The results recorded for an app; none if it has no entry.
unfoldable pub results_of : Message → Bytes → List Result
results_of m app = elim (lookup app m.apps) [ none ↦ [] | some rs ↦ rs ]

-- What a history reports on an app.
unfoldable pub reported : Bytes → List Call → List Result
reported app [] = []
reported app (adds a ∷ cs) = reported app cs
reported app (removes a ∷ cs) = reported app cs
reported app (reports a r ∷ cs) =
    let rest = reported app cs in if bytes_eq a app then r ∷ rest else rest

abbrev entry : List (Bytes × List Result) → Bytes → List Result
entry apps app = elim (lookup app apps) [ none ↦ [] | some rs ↦ rs ]

lookup-ensure_app :
    (a app : Bytes) (apps : List (Bytes × List Result))
    → lookup app (ensure_app a apps)
      ≡ (if bytes_eq a app then some (entry apps a) else lookup app apps)
unfolding ensure_app
lookup-ensure_app a app apps = ground (arith, lookup-insert a app [] apps, bytes_eq_iff a app)

lookup-append_result :
    (a app : Bytes) (r : Result) (apps : List (Bytes × List Result)) {rs : List Result}
    → lookup a apps ≡ some rs
    → lookup app (append_result a r apps)
      ≡ (if bytes_eq a app then some (rs ++ r ∷ []) else lookup app apps)
unfolding append_result
lookup-append_result a app r apps {rs} h =
    rw (h, append_result) (lookup-insert a app (rs ++ r ∷ []) apps)

lookup-report :
    (a app : Bytes) (r : Result) (apps : List (Bytes × List Result))
    → lookup app (append_result a r (ensure_app a apps))
      ≡ (if bytes_eq a app then some (entry apps a ++ r ∷ []) else lookup app apps)
lookup-report a app r apps = ground (
  arith,
  bytes_eq_iff a app,
  bytes_eq_iff a a,
  lookup-ensure_app a a apps,
  lookup-ensure_app a app apps,
  lookup-append_result a app r (ensure_app a apps) {rs = entry apps a},
)

results_of-step :
    (m : Message) (app : Bytes) (c : Call)
    → results_of (step m c) app ≡ results_of m app ++ reported app (c ∷ [])
unfolding results_of step reported add_new_app remove_app add_to_app_message
results_of-step m app (adds a) =
    ground (arith, lookup-insert a app [] m.apps, bytes_eq_iff a app, append-nil (results_of m app))
results_of-step m app (removes a) = ground (arith, append-nil (results_of m app))
results_of-step m app (reports a r) =
    ground (arith, lookup-report a app r m.apps, bytes_eq_iff a app, append-nil (results_of m app))

reported-cons :
    (app : Bytes) (c : Call) (cs : List Call)
    → reported app (c ∷ cs) ≡ reported app (c ∷ []) ++ reported app cs
unfolding reported
reported-cons app (adds a) cs = refl
reported-cons app (removes a) cs = refl
reported-cons app (reports a r) cs = ground arith

-- No result is lost, changed or reordered: after any history the results of an app are those
-- before it, followed by those that the history reported on the app, in their order.
pub results_of-run :
    (m : Message) (app : Bytes) (cs : List Call)
    → results_of (run m cs) app ≡ results_of m app ++ reported app cs
unfolding run reported
results_of-run m app [] = sym (append-nil (results_of m app))
results_of-run m app (c ∷ cs) =
    results_of-run (step m c) app cs
    ∙ rw (results_of-step m app c) (
        append_assoc (results_of m app) (reported app (c ∷ [])) (reported app cs)
        ∙ ap (λ t. results_of m app ++ t) (sym (reported-cons app c cs)))

-- A sticky result keeps its app in the report.
unfoldable pub KeepsSticky : Message → Type 0
KeepsSticky m = (app : Bytes) → has_sticky (results_of m app) ≡ true → is_deleted m app ≡ false

has_sticky-append :
    (xs ys : List Result) → has_sticky (xs ++ ys) ≡ (if has_sticky xs then true else has_sticky ys)
unfolding has_sticky
has_sticky-append [] ys = refl
has_sticky-append (x ∷ xs) ys = ground (arith, has_sticky-append xs ys)

step-KeepsSticky : (m : Message) (c : Call) → KeepsSticky m → KeepsSticky (step m c)
unfolding KeepsSticky step is_deleted add_new_app remove_app add_to_app_message results_of reported
    has_sticky
step-KeepsSticky m (adds a) k app h = ground (
  arith,
  k app,
  results_of-step m app (adds a),
  append-nil (results_of m app),
  lookup-delete a app m.deleted_apps_set,
)
step-KeepsSticky m (removes a) k app h =
    ground (arith, k app, lookup-insert a app tt m.deleted_apps_set, bytes_eq_iff a app)
step-KeepsSticky m (reports a r) k app h = ground (
  arith,
  k app,
  results_of-step m app (reports a r),
  append-nil (results_of m app),
  lookup-delete a app m.deleted_apps_set,
)

results_of-new :
    (name : Bytes) (pr_id comment_id : ℕ) (vcs : CommitState → Bytes) (app : Bytes)
    → results_of (new_message name pr_id comment_id vcs) app ≡ []
unfolding results_of new_message lookup
results_of-new name pr_id comment_id vcs app = refl

new-KeepsSticky :
    (name : Bytes) (pr_id comment_id : ℕ) (vcs : CommitState → Bytes)
    → KeepsSticky (new_message name pr_id comment_id vcs)
unfolding KeepsSticky is_deleted new_message lookup
new-KeepsSticky name pr_id comment_id vcs app h = refl

run-KeepsSticky : (m : Message) (cs : List Call) → KeepsSticky m → KeepsSticky (run m cs)
unfolding run
run-KeepsSticky m [] k = k
run-KeepsSticky m (c ∷ cs) k = run-KeepsSticky (step m c) cs (step-KeepsSticky m c k)

-- After any history of a new message, an app for which the history reported a sticky result is
-- not marked as deleted, whatever was removed before or after the report.
pub run-sticky :
    (name : Bytes) (pr_id comment_id : ℕ) (vcs : CommitState → Bytes) (cs : List Call) (app : Bytes)
    → has_sticky (reported app cs) ≡ true
    → is_deleted (run (new_message name pr_id comment_id vcs) cs) app ≡ false
unfolding KeepsSticky
run-sticky name pr_id comment_id vcs cs app h =
    run-KeepsSticky m cs (new-KeepsSticky name pr_id comment_id vcs) app
      (subst (λ rs. has_sticky rs ≡ true) (sym from_new) h)
  where
    m : Message
    m = new_message name pr_id comment_id vcs

    from_new : results_of (run m cs) app ≡ reported app cs
    from_new = rw (results_of-run m app cs, results_of-new)

-- One app by itself: its results, and whether it is marked as deleted.
pub record AppView : Type 0 where
  pub results : List Result
  pub deleted : Bool

abbrev pub view : Message → Bytes → AppView
view m app = record { results = results_of m app; deleted = is_deleted m app }

-- What a call on the app itself does; a call on another app does nothing.
unfoldable pub view_step : Bytes → AppView → Call → AppView
view_step app v (adds a) = if bytes_eq a app then record v { deleted = false } else v
view_step app v (removes a) =
    if bytes_eq a app then (if has_sticky v.results then v else record v { deleted = true }) else v
view_step app v (reports a r) =
    if bytes_eq a app then record { results = v.results ++ r ∷ []; deleted = false } else v

unfoldable pub view_run : Bytes → AppView → List Call → AppView
unfolding view_step
view_run app v [] = v
view_run app v (c ∷ cs) = view_run app (view_step app v c) cs

view-step :
    (m : Message) (app : Bytes) (c : Call) → view (step m c) app ≡ view_step app (view m app) c
unfolding view_step reported step is_deleted add_new_app remove_app add_to_app_message results_of
    has_sticky
view-step m app (adds a) = ground (
  arith,
  results_of-step m app (adds a),
  append-nil (results_of m app),
  lookup-delete a app m.deleted_apps_set,
)
view-step m app (removes a) =
    ground (arith, bytes_eq_iff a app, lookup-insert a app tt m.deleted_apps_set)
view-step m app (reports a r) = ground (
  arith,
  results_of-step m app (reports a r),
  append-nil (results_of m app),
  lookup-delete a app m.deleted_apps_set,
)

-- The message refines independent apps: after any history, the results and the deletion mark of
-- an app are what the calls on that app alone make of what they were before.
pub view-run :
    (m : Message) (app : Bytes) (cs : List Call)
    → view (run m cs) app ≡ view_run app (view m app) cs
unfolding run view_run
view-run m app [] = refl
view-run m app (c ∷ cs) =
    view-run (step m c) app cs ∙ ap (λ v. view_run app v cs) (view-step m app c)
