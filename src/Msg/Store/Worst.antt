-- ===== src/Msg/Store/Worst.antt =====
-- `WorstState`: the worst of the results that count, in whatever order they come.
use mathlib.Core.List.{Perm, Permᴰ}
use kubechecks.Common.{
  Bytes, List, [], ◌∷◌, ◌++◌, ◌≡◌, refl, if◌then◌else◌, arith, max, ◌∙◌, sym, ap,
}
use kubechecks.CommitState.{CommitState, state_none, worst_state}
use kubechecks.Msg.Store.{
  Result, AppResults, Message, is_deleted, worst_of_results, worst_of_apps, message_worst_state,
}
use mathlib.Core.Logic.{∥∥₁_elim}
use native.Mathlib.Nat.{ℕ_set}

-- The states that count, in the order of the map.
abbrev counted : List Result → List CommitState
counted [] = []
counted (r ∷ rs) = let rest = counted rs in if r.no_changes_detected then rest else r.state ∷ rest

abbrev counted_of : Message → List (Bytes × AppResults) → List CommitState
counted_of m [] = []
counted_of m ((app, rs) ∷ apps) =
    let rest = counted_of m apps in if is_deleted m app then rest else counted rs ++ rest

abbrev maximum : CommitState → List CommitState → CommitState
maximum s [] = s
maximum s (t ∷ ts) = maximum (max s t) ts

maximum-append :
    (s : CommitState) (ts us : List CommitState) → maximum s (ts ++ us) ≡ maximum (maximum s ts) us
maximum-append s [] us = refl
maximum-append s (t ∷ ts) us = maximum-append (max s t) ts us

worst_of_results-maximum :
    (s : CommitState) (rs : List Result) → worst_of_results s rs ≡ maximum s (counted rs)
unfolding worst_of_results worst_state
worst_of_results-maximum s [] = refl
worst_of_results-maximum s (r ∷ rs) =
    ground (arith, worst_of_results-maximum s rs, worst_of_results-maximum (max s r.state) rs)

worst_of_apps-maximum :
    (m : Message) (s : CommitState) (apps : List (Bytes × AppResults))
    → worst_of_apps m s apps ≡ maximum s (counted_of m apps)
unfolding worst_of_apps
worst_of_apps-maximum m s [] = refl
worst_of_apps-maximum m s ((app, rs) ∷ apps) = ground (
  arith,
  worst_of_apps-maximum m s apps,
  worst_of_apps-maximum m (worst_of_results s rs) apps,
  worst_of_results-maximum s rs,
  maximum-append s (counted rs) (counted_of m apps),
)

maximum_swap : (s t u : CommitState) → max (max s t) u ≡ max (max s u) t
maximum_swap s t u = omega arith

maximum_out :
    (s t : CommitState) (ts : List CommitState) → maximum (max s t) ts ≡ max t (maximum s ts)
maximum_out s t [] = omega arith
maximum_out s t (u ∷ ts) = rw (maximum_swap s t u) (maximum_out (max s u) t ts)

abbrev counted_from : Message → Bytes × AppResults → List CommitState
counted_from m (app, rs) = if is_deleted m app then [] else counted rs

counted_of-cons :
    (m : Message) (x : Bytes × AppResults) (xs : List (Bytes × AppResults))
    → counted_of m (x ∷ xs) ≡ counted_from m x ++ counted_of m xs
counted_of-cons m (app, rs) xs = ground arith

-- Two apps contribute in either order.
maximum-exchange :
    (s : CommitState) (ts us : List CommitState)
    → maximum (maximum s ts) us ≡ maximum (maximum s us) ts
maximum-exchange s [] us = refl
maximum-exchange s (t ∷ ts) us =
    maximum-exchange (max s t) ts us ∙ ap (λ v. maximum v ts) (omega (arith, maximum_out s t us))

counted_perm :
    (m : Message) {xs ys : List (Bytes × AppResults)}
    → Permᴰ xs ys
    → (s : CommitState) → maximum s (counted_of m xs) ≡ maximum s (counted_of m ys)
counted_perm m Permᴰ.nil s = refl
counted_perm m (Permᴰ.cons {a = x} {b = y} {l₁ = xs} {l₂ = ys} e p) s =
    rw (e, counted_of-cons m y xs, counted_of-cons m y ys)
      (maximum-append s (counted_from m y) (counted_of m xs)
        ∙ counted_perm m p (maximum s (counted_from m y))
        ∙ sym (maximum-append s (counted_from m y) (counted_of m ys)))
counted_perm m (Permᴰ.swap {a = x} {b = y} {a' = y'} {b' = x'} {l = xs} e f) s =
    rw (e, f)
      (two x' y' xs
        ∙ ap (λ v. maximum v (counted_of m xs))
            (maximum-exchange s (counted_from m x') (counted_from m y'))
        ∙ sym (two y' x' xs))
  where
    two :
        (a b : Bytes × AppResults) (l : List (Bytes × AppResults))
        → maximum s (counted_of m (a ∷ b ∷ l))
          ≡ maximum (maximum (maximum s (counted_from m a)) (counted_from m b)) (counted_of m l)
    two a b l =
        rw (counted_of-cons m a (b ∷ l), counted_of-cons m b l)
          (maximum-append s (counted_from m a) (counted_from m b ++ counted_of m l)
            ∙ maximum-append (maximum s (counted_from m a)) (counted_from m b) (counted_of m l))
counted_perm m (Permᴰ.trans p q) s = counted_perm m p s ∙ counted_perm m q s

-- The marks of deletion do not depend on the apps.
counted_of-apps :
    (m : Message) (apps xs : List (Bytes × AppResults))
    → counted_of (record m { apps = apps }) xs ≡ counted_of m xs
unfolding is_deleted
counted_of-apps m apps [] = refl
counted_of-apps m apps ((app, rs) ∷ xs) = ground (arith, counted_of-apps m apps xs)

-- The worst state is the same in whatever order the map of apps is walked.
pub message_worst_state-perm :
    (m : Message) (apps : List (Bytes × AppResults))
    → Perm m.apps apps
    → message_worst_state m ≡ message_worst_state (record m { apps = apps })
unfolding message_worst_state
message_worst_state-perm m apps p = ∥∥₁_elim p (ℕ_set _ _) λ q.
    worst_of_apps-maximum m state_none m.apps
    ∙ counted_perm m q state_none
    ∙ sym (
        worst_of_apps-maximum (record m { apps = apps }) state_none apps
        ∙ ap (maximum state_none) (counted_of-apps m apps apps))
