-- ===== src/Msg/Sections/Groups.antt =====
-- `buildAppSections`: that it always ends, and which sections are not within the budget.
use kubechecks.Common.{
  ℕ, ◌+◌, Bytes, Bool, true, false, ◌&&◌, not, List, [], ◌∷◌, ◌++◌, ℤ, pos, leb_ℤ, ◌-ℤ◌, Option,
  some, map, length, if◌then◌else◌, is_empty, ◌≡◌, refl, ap, ◌⊎◌, inl, inr, arith, ◌≤ℤ◌, Bool-cases,
  leb→le, All, All-append,
}
use kubechecks.CommitState.{CommitState, state_success}
use kubechecks.Msg.Store.{AppResults, has_sticky}
use kubechecks.Msg.Sections.{
  CheckBlock, Grouping, Collected, collect_checks, app_header_of, render_check, wrap_app_section,
  check_separator, split_check, group_check, group_checks, start_group, flush_group, finish_groups,
  build_app_sections,
}
use kubechecks.Msg.Sections.Lengths.{OneOf, All-OneOf, length-wrap, length-wrap-snoc}
use kubechecks.Msg.Sections.Checks.{split_check_total}

split_check-some : (c : CheckBlock) (n : ℤ) → (parts : List Bytes) × (split_check c n ≡ some parts)
split_check-some c n = (_, (split_check_total c n).1)

module _ (header : Bytes) where
  module _ (max_len : ℤ) (checks : List CheckBlock) where
    -- The section holds one of the parts of a check that does not fit in a section.
    abbrev pub IsCut : Bytes → Type 0
    IsCut s =
        (c : CheckBlock) × (parts : List Bytes) × (part : Bytes) × OneOf c checks
        × (leb_ℤ (pos (length (wrap_app_section header []) + length (render_check c))) max_len
            ≡ false)
        × (split_check c (max_len -ℤ pos (length (wrap_app_section header []))) ≡ some parts)
        × OneOf part parts
        × (s ≡ wrap_app_section header (part ∷ []))

    -- Within the budget, or the empty section, or cut.
    abbrev pub IsSection : Bytes → Type 0
    IsSection s = (pos (length s) ≤ℤ max_len) ⊎ ((s ≡ wrap_app_section header []) ⊎ IsCut s)

    record Inv (g : Grouping) : Type 0 where
      counted : g.group_len ≡ length (wrap_app_section header g.group)
      fits : (g.group ≡ []) ⊎ (pos g.group_len ≤ℤ max_len)
      done : All IsSection g.sections

    flush-Inv : (g : Grouping) → Inv g → Inv (flush_group header g)
    unfolding flush_group
    flush-Inv g v = record {
      counted = refl;
      fits = inl refl;
      done = All-append IsSection g.sections _ v.done (closed, tt);
    }
      where
        closed : IsSection (wrap_app_section header g.group)
        closed = elim v.fits [
          | inl e ↦ inr (inl (ap (wrap_app_section header) e))
          | inr h ↦ inl (omega (arith, v.counted, h))
        ]

    parts-All :
        (c : CheckBlock) (parts some_parts : List Bytes)
        → OneOf c checks
        → leb_ℤ (pos (length (wrap_app_section header []) + length (render_check c))) max_len
          ≡ false
        → split_check c (max_len -ℤ pos (length (wrap_app_section header []))) ≡ some parts
        → All (λ part. OneOf part parts) some_parts
        → All IsSection (map (λ part. wrap_app_section header (part ∷ [])) some_parts)
    parts-All c parts [] own over e all = tt
    parts-All c parts (p ∷ some_parts) own over e all = (
      inr (inr (c, parts, p, own, over, e, all.0, refl)),
      parts-All c parts some_parts own over e all.1,
    )

    abbrev Ends : Option Grouping → Type 0
    Ends r = (g : Grouping) × (r ≡ some g) × Inv g

    close-Inv : (g : Grouping) → Inv g → Inv (if is_empty g.group then g else flush_group header g)
    close-Inv g v = elim (Bool-cases (is_empty g.group)) [
      | inl e ↦ simp e v
      | inr e ↦ simp e (flush-Inv g v)
    ]

    start_group-Ends :
        (g : Grouping) (c : CheckBlock)
        → OneOf c checks
        → Inv g
        → Ends (start_group header max_len g c)
    unfolding start_group
    start_group-Ends g c own v =
        elim (Bool-cases (leb_ℤ (pos (wrap_len + length rendered)) max_len)) [
          | inl fits ↦ (
            record g' { group = rendered ∷ []; group_len = wrap_len + length rendered },
            simp fits,
            record {
              counted = omega (arith, length-wrap header (rendered ∷ []));
              fits = inr (leb→le _ _ fits);
              done = v'.done;
            },
          )
          | inr over ↦
              let (parts, e) = split_check-some c (max_len -ℤ pos wrap_len) in
              (
                record g' {
                  sections = g'.sections ++ map (λ part. wrap_app_section header (part ∷ [])) parts;
                },
                rw (over, e, start_group) refl,
                record {
                  counted = v'.counted;
                  fits = v'.fits;
                  done =
                      All-append IsSection g'.sections _ v'.done
                        (parts-All c parts parts own over e (All-OneOf parts));
                },
              )
        ]
      where
        wrap_len : ℕ
        wrap_len = length (wrap_app_section header [])

        rendered : Bytes
        rendered = render_check c

        g' : Grouping
        g' = if is_empty g.group then g else flush_group header g

        v' : Inv g'
        v' = close-Inv g v

    group_check-Ends :
        (g : Grouping) (c : CheckBlock)
        → OneOf c checks
        → Inv g
        → Ends (group_check header max_len g c)
    unfolding group_check
    group_check-Ends g c own v = elim (Bool-cases (leb_ℤ (pos (g.group_len + added)) max_len)) [
      | inl fits ↦ (
        record g { group = g.group ++ rendered ∷ []; group_len = g.group_len + added },
        simp fits,
        record {
          counted = omega (arith, v.counted, length-wrap-snoc header g.group rendered);
          fits = inr (leb→le _ _ fits);
          done = v.done;
        },
      )
      | inr over ↦ simp over (start_group-Ends g c own v)
    ]
      where
        rendered : Bytes
        rendered = render_check c

        added : ℕ
        added = length rendered + (if is_empty g.group then 0 else length check_separator)

    group_checks-Ends :
        (g : Grouping) (cs : List CheckBlock)
        → All (λ c. OneOf c checks) cs
        → Inv g
        → Ends (group_checks header max_len g cs)
    unfolding group_checks
    group_checks-Ends g [] all v = (g, refl, v)
    group_checks-Ends g (c ∷ cs) all v =
        let (g', e, v') = group_check-Ends g c all.0 v in
        rw (e, group_checks) (group_checks-Ends g' cs all.1 v')

    finished-All :
        (g : Grouping)
        → Inv g
        → (b : Bool) → All IsSection (if b then g else flush_group header g).sections
    finished-All g v true = v.done
    finished-All g v false = (flush-Inv g v).done

    finish_groups-All : (g : Grouping) → Inv g → All IsSection (finish_groups header g)
    unfolding finish_groups
    finish_groups-All g v = finished-All g v (is_empty g.group && not (is_empty g.sections))

    start-Inv :
        Inv (record { sections = []; group = []; group_len = length (wrap_app_section header []) })
    start-Inv = record { counted = refl; fits = inl refl; done = tt }

-- The checks of an app, and the header of its sections.
unfoldable pub checks_of : (CommitState → Bytes) → AppResults → List CheckBlock
checks_of to_emoji results =
    (collect_checks to_emoji (record { checks = []; app_state = state_success; no_changes = false })
      results).checks

unfoldable pub header_for : (CommitState → Bytes) → Bytes → AppResults → Bytes
header_for to_emoji app_name results =
    app_header_of to_emoji app_name
      (collect_checks to_emoji
        (record { checks = []; app_state = state_success; no_changes = false }) results).app_state

-- Rendering an app always ends: no loop runs out of fuel. Each of its sections is within the budget,
-- or it is the app's header without a check, or it holds a single part of one of the app's checks
-- that does not fit in a section, as that check is split.
pub build_app_sections_lem :
    (to_emoji : CommitState → Bytes) (app_name : Bytes) (results : AppResults) (max_len : ℤ)
    → (sections : List Bytes) × (build_app_sections to_emoji app_name results max_len
        ≡ some sections)
      × All
          (IsSection (header_for to_emoji app_name results) max_len (checks_of to_emoji results))
          sections
unfolding build_app_sections header_for checks_of
build_app_sections_lem to_emoji app_name results max_len =
    elim (Bool-cases (acc.no_changes && not (has_sticky results))) [
      | inl e ↦ ([], simp e, tt)
      | inr e ↦
          let (g, same, v) =
            group_checks-Ends header max_len acc.checks start acc.checks (All-OneOf acc.checks)
              (start-Inv header max_len acc.checks) in
          (
            finish_groups header g,
            rw (e, same, build_app_sections),
            finish_groups-All header max_len acc.checks g v,
          )
    ]
  where
    acc : Collected
    acc =
        collect_checks to_emoji
          (record { checks = []; app_state = state_success; no_changes = false }) results

    header : Bytes
    header = app_header_of to_emoji app_name acc.app_state

    start : Grouping
    start = record { sections = []; group = []; group_len = length (wrap_app_section header []) }
