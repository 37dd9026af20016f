-- ===== src/Msg/Sections/Checks.antt =====
-- `splitCheck`: the loop over the width of the suffix ends, and the suffix fits.
use kubechecks.Common.{
  ℕ, zero, suc, ◌+◌, ◌≤◌, ◌<◌, Bytes, List, [], ◌∷◌, ℤ, pos, leb, ◌-ℤ◌, some, pos_part, length, ◌≡◌,
  refl, ap, ◌∙◌, inl, inr, arith, itoa, -ℤ_parts, Bool-cases, leb→le, leb→lt,
}
use kubechecks.Msg.Split.{split_details_at_lines}
use kubechecks.Msg.Split.Laws.{split_short}
use kubechecks.Msg.Sections.{
  CheckBlock, part_suffix, split_parts, split_check, details_room, render_parts,
}
use native.Mathlib.Decide.{dec_le}
use native.Mathlib.Nat.{le_refl}

part_suffix-99 : length (part_suffix 99 99) ≡ 16
unfolding part_suffix itoa
part_suffix-99 = refl

part_suffix-1 : length (part_suffix 1 1) ≡ 14
unfolding part_suffix itoa
part_suffix-1 = refl

-- The length of the suffix for a number of parts.
abbrev pub suffix_len : List Bytes → ℕ
suffix_len parts = length (part_suffix (length parts) (length parts))

abbrev pub parts_at : Bytes → ℤ → ℕ → List Bytes
parts_at details room reserve = split_details_at_lines details (room -ℤ pos reserve)

-- Without room for details there is one part.
no_room :
    (details : Bytes) (room : ℤ) (reserve : ℕ)
    → pos_part room ≤ reserve
    → suffix_len (parts_at details room reserve) ≡ 14
no_room details room reserve h =
    ap suffix_len
      (split_short details (room -ℤ pos reserve) (inl (omega (arith, -ℤ_parts room (pos reserve)))))
    ∙ part_suffix-1

-- With more fuel than is left of the room the loop ends, with parts whose suffix fits in what is
-- reserved for it; the reserve has only grown.
split_parts_lem :
    (fuel : ℕ) (details : Bytes) (room : ℤ) (reserve : ℕ)
    → 14 ≤ reserve
    → pos_part room < fuel + reserve
    → 0 < fuel
    → (r : ℕ) × (split_parts fuel details room reserve ≡ some (parts_at details room r))
      × (reserve ≤ r)
      × (suffix_len (parts_at details room r) ≤ r)
unfolding split_parts
split_parts_lem zero details room reserve h f p = absurd (omega arith)
split_parts_lem (suc fuel) details room reserve h f p =
    elim (Bool-cases (leb (suffix_len (parts_at details room reserve)) reserve)) [
      | inl fits ↦ (reserve, rw fits, le_refl reserve, leb→le _ _ fits)
      | inr wide ↦
          let more : reserve < suffix_len (parts_at details room reserve) = leb→lt _ _ wide in
          let open_room : reserve < pos_part room = room_left more in
          let (r, e, le, fit) =
            split_parts_lem fuel details room (suffix_len (parts_at details room reserve))
              (omega arith) (omega arith) (omega arith) in
          (r, rw wide e, omega arith, fit)
    ]
  where
    room_left : reserve < suffix_len (parts_at details room reserve) → reserve < pos_part room
    room_left more = elim (dec_le (pos_part room) reserve) [
      | yes h' ↦ absurd (omega (arith, no_room details room reserve h'))
      | no h' ↦ omega arith
    ]

length-render_parts :
    (summary : Bytes) (total i : ℕ) (parts : List Bytes)
    → length (render_parts summary total i parts) ≡ length parts
unfolding render_parts
length-render_parts summary total i [] = refl
length-render_parts summary total i (p ∷ ps) = ap suc (length-render_parts summary total (suc i) ps)

split_check-from :
    (c : CheckBlock) (max_len : ℤ) (parts : List Bytes)
    → split_parts
        (suc (suc (pos_part (details_room c max_len))))
        c.details
        (details_room c max_len)
        (length (part_suffix 99 99))
      ≡ some parts
    → split_check c max_len ≡ some (render_parts c.summary (length parts) 0 parts)
unfolding split_check
split_check-from c max_len parts e = rw (e, split_check)

-- `splitCheck` always ends. Its parts are the details, split with some reserve for the suffix, each
-- rendered with the summary, and the reserve is at least 16 bytes and holds the suffix of the last
-- part.
pub split_check_total :
    (c : CheckBlock) (max_len : ℤ)
    → (r : ℕ) × (split_check c max_len
        ≡ some (
            render_parts c.summary
              (length (parts_at c.details (details_room c max_len) r))
              0
              (parts_at c.details (details_room c max_len) r)))
      × (16 ≤ r)
      × (suffix_len (parts_at c.details (details_room c max_len) r) ≤ r)
split_check_total c max_len =
    let room = details_room c max_len in
    let (r, e, le, fit) =
      split_parts_lem (suc (suc (pos_part room))) c.details room (length (part_suffix 99 99))
        (omega (arith, part_suffix-99)) (omega (arith, part_suffix-99)) (omega arith) in
    (
      r,
      split_check-from c max_len (parts_at c.details room r) e,
      omega (arith, part_suffix-99),
      fit,
    )
