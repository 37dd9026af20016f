-- ===== src/Removals.antt =====
-- pkg/checks/diff/removals.go: the fields that a server-side apply sync removes. Decoded JSON is a
-- tree; a write into it gives a new tree. `value.Equals` and the sets and elements of `fieldpath`
-- are not the program's own: a set is the paths that `Iterate` passes and the test `Has`.
pub mod Trees
pub mod Points
pub mod Plan
pub mod Owned
use kubechecks.Common.{
  ℕ, zero, suc, ◌+◌, Bytes, codes, Bool, true, false, ◌&&◌, ◌||◌, not, List, [], ◌∷◌, ◌++◌, Option,
  none, some, ℤ, pos, negsuc, lookup, insert, bytes_eq, bytes_instance, take, length, is_empty, ltb,
  ◌==◌, if◌then◌else◌, join,
}
use kubechecks.Msg.Comment.{insert_key}

-- A decoded value: `map[string]any`, `[]any`, or one that is neither.
mutual
  pub data Value : Type 0 where
    scalar : Bytes → Value
    object : Fields → Value
    array : Items → Value

  pub data Fields : Type 0 where
    end : Fields
    field : Bytes → Value → Fields → Fields

  pub data Items : Type 0 where
    nil : Items
    cons : Value → Items → Items

-- `fieldpath.PathElement`, of which one field is set.
pub data PathElement : Type 0 where
  name : Bytes → PathElement
  key : List (Bytes × Value) → PathElement
  value : Value → PathElement
  index : ℤ → PathElement

abbrev pub FieldPath : Type 0
FieldPath = List PathElement

unfoldable pub get_field : Bytes → Fields → Option Value
get_field n end = none
get_field n (field m v fs) = if bytes_eq m n then some v else get_field n fs

unfoldable pub delete_field : Bytes → Fields → Fields
delete_field n end = end
delete_field n (field m v fs) =
    let rest = delete_field n fs in if bytes_eq m n then rest else field m v rest

unfoldable pub set_field : Bytes → Value → Fields → Fields
set_field n v end = field n v end
set_field n v (field m w fs) = if bytes_eq m n then field n v fs else field m w (set_field n v fs)

unfoldable pub get_item : Items → ℕ → Option Value
get_item nil i = none
get_item (cons v vs) zero = some v
get_item (cons v vs) (suc i) = get_item vs i

unfoldable pub set_item : Items → ℕ → Value → Items
set_item nil i w = nil
set_item (cons v vs) zero w = cons w vs
set_item (cons v vs) (suc i) w = cons v (set_item vs i w)

-- `append(l[:i:i], l[i+1:]...)`
unfoldable pub remove_item : Items → ℕ → Items
remove_item nil i = nil
remove_item (cons v vs) zero = vs
remove_item (cons v vs) (suc i) = cons v (remove_item vs i)

module _ (equals : Value → Value → Bool) where
  -- The loop over the fields of a key.
  unfoldable pub key_matches : Fields → List (Bytes × Value) → ℕ → Bool
  key_matches m [] matched = ltb 0 matched
  key_matches m ((n, v) ∷ rest) matched =
      let skipped = key_matches m rest matched in
      let counted = key_matches m rest (matched + 1) in
      elim (get_field n m) [ none ↦ skipped | some w ↦ if equals w v then counted else false ]

  unfoldable pub item_matches : Value → ℕ → PathElement → Bool
  unfolding key_matches
  item_matches item i (name n) = false
  item_matches (object m) i (key k) = key_matches m k 0
  item_matches (array l) i (key k) = false
  item_matches (scalar s) i (key k) = false
  item_matches item i (value v) = equals item v
  item_matches item i (index (pos j)) = j == i
  item_matches item i (index (negsuc j)) = false

  -- `listIndex`, from an index on; `none` is -1
  unfoldable pub list_index : Items → ℕ → PathElement → Option ℕ
  unfolding item_matches
  list_index nil i pe = none
  list_index (cons v vs) i pe =
      let later : Option ℕ = elim (list_index vs (suc i) pe) [
        | none ↦ none
        | some j ↦ some (suc j)
      ] in
      if item_matches v i pe then some 0 else later

  unfoldable pub step : Value → PathElement → Option Value
  unfolding list_index
  step (object m) (name n) = get_field n m
  step (array l) (name n) = none
  step (scalar s) (name n) = none
  step (array l) pe = elim (list_index l 0 pe) [ none ↦ none | some i ↦ get_item l i ]
  step (object m) pe = none
  step (scalar s) pe = none

  unfoldable pub has_path : Value → FieldPath → Bool
  has_path cur [] = true
  has_path cur (pe ∷ p) = elim (step cur pe) [ none ↦ false | some next ↦ has_path next p ]

  -- `removalPoint`, from a length on, with the number of prefixes that are left.
  unfoldable pub removal_from : Value → FieldPath → ℕ → ℕ → FieldPath
  removal_from target p zero i = p
  removal_from target p (suc left) i =
      let later = removal_from target p left (suc i) in
      if has_path target (take i p) then later else take i p

  unfoldable pub removal_point : Value → FieldPath → FieldPath
  unfolding removal_from
  removal_point target p = removal_from target p (length p) 1

  -- The write of a value where `step` reads one.
  unfoldable pub put : Value → PathElement → Value → Option Value
  put (object m) (name n) w = elim (get_field n m) [
    | none ↦ none
    | some old ↦ some (object (set_field n w m))
  ]
  put (array l) (name n) w = none
  put (scalar s) (name n) w = none
  put (array l) pe w = elim (list_index l 0 pe) [
    | none ↦ none
    | some i ↦ some (array (set_item l i w))
  ]
  put (object m) pe w = none
  put (scalar s) pe w = none

  -- The removal from the parent.
  unfoldable pub remove_last : Value → PathElement → Option Value
  remove_last (object m) (name n) = elim (get_field n m) [
    | none ↦ none
    | some old ↦ some (object (delete_field n m))
  ]
  remove_last (array l) (name n) = none
  remove_last (scalar s) (name n) = none
  remove_last (array l) pe = elim (list_index l 0 pe) [
    | none ↦ none
    | some i ↦ some (array (remove_item l i))
  ]
  remove_last (object m) pe = none
  remove_last (scalar s) pe = none

  -- `removePath` with `setInParent`: the tree behind the removal, `none` where they return false.
  unfoldable pub remove_path : Value → FieldPath → Option Value
  unfolding put remove_last
  remove_path obj [] = none
  remove_path obj (pe ∷ []) = remove_last obj pe
  remove_path obj (pe ∷ (q ∷ p)) = elim (step obj pe) [
    | none ↦ none
    | some child ↦ elim (remove_path child (q ∷ p)) [ none ↦ none | some c ↦ put obj pe c ]
  ]
