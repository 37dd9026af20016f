-- ===== src/Msg/Sections/Lengths.antt =====
-- The lengths of the sections of `buildAppSections`, and what stands in a list.
use kubechecks.Common.{
  subst, append_assoc, ℕ, ◌+◌, Bytes, List, [], ◌∷◌, ◌++◌, length, if◌then◌else◌, is_empty, ◌≡◌,
  refl, arith, All, join, length-append,
}
use kubechecks.Msg.Sections.{
  wrap_app_section, check_separator, app_wrap_open, app_wrap_close, app_wrap_end,
}

-- The element stands in the list.
abbrev pub OneOf {ℓ} : {A : Type ℓ} → A → List A → Type ℓ
OneOf {A = A} a list = (before : List A) × (after : List A) × (list ≡ before ++ a ∷ after)

All-OneOf_behind {ℓ} :
    {A : Type ℓ} (before rest : List A) → All (λ a. OneOf a (before ++ rest)) rest
All-OneOf_behind before [] = tt
All-OneOf_behind {A = A} before (a ∷ rest) = (
  (before, rest, refl),
  subst (λ l. All (λ b. OneOf b l) rest) (append_assoc before (a ∷ []) rest)
      (All-OneOf_behind (before ++ a ∷ []) rest),
)

pub All-OneOf {ℓ} : {A : Type ℓ} (list : List A) → All (λ a. OneOf a list) list
All-OneOf list = All-OneOf_behind [] list

length-join-snoc :
    (group : List Bytes) (r sep : Bytes)
    → length (join (group ++ r ∷ []) sep)
      ≡ length (join group sep) + (length r + (if is_empty group then 0 else length sep))
length-join-snoc [] r sep = omega arith
length-join-snoc (p ∷ []) r sep = omega (arith, length-append p (sep ++ r), length-append sep r)
length-join-snoc (p ∷ q ∷ group) r sep = omega (
  arith,
  length-append p (sep ++ join ((q ∷ group) ++ r ∷ []) sep),
  length-append sep (join ((q ∷ group) ++ r ∷ []) sep),
  length-append p (sep ++ join (q ∷ group) sep),
  length-append sep (join (q ∷ group) sep),
  length-join-snoc (q ∷ group) r sep,
)

module _ (header : Bytes) where
  -- The length of a section is that of its checks and of an empty section.
  pub length-wrap :
      (group : List Bytes)
      → length (wrap_app_section header group)
        ≡ length (join group check_separator) + length (wrap_app_section header [])
  unfolding wrap_app_section
  length-wrap group = omega (arith, wrapped (join group check_separator), wrapped [])
    where
      open_len : ℕ
      open_len = length app_wrap_open

      wrapped :
          (body : Bytes)
          → length (app_wrap_open ++ (header ++ (app_wrap_close ++ (body ++ app_wrap_end))))
            ≡ length app_wrap_open
              + length header
              + length app_wrap_close
              + length body
              + length app_wrap_end
      wrapped body = omega (
        arith,
        length-append app_wrap_open (header ++ (app_wrap_close ++ (body ++ app_wrap_end))),
        length-append header (app_wrap_close ++ (body ++ app_wrap_end)),
        length-append app_wrap_close (body ++ app_wrap_end),
        length-append body app_wrap_end,
      )

  pub length-wrap-snoc :
      (group : List Bytes) (r : Bytes)
      → length (wrap_app_section header (group ++ r ∷ []))
        ≡ length (wrap_app_section header group)
          + (length r + (if is_empty group then 0 else length check_separator))
  length-wrap-snoc group r = omega (
    arith,
    length-wrap (group ++ r ∷ []),
    length-wrap group,
    length-join-snoc group r check_separator,
  )
