-- ===== src/Tests/Removals.antt =====
-- pkg/checks/diff/removals.go: an object of two fields, of which the target has one.
use kubechecks.Common.{
  Bytes, codes, Bool, true, false, ◌&&◌, not, [], ◌∷◌, some, ◌≡◌, refl, bytes_eq, All,
  bytes_instance,
}
use kubechecks.Removals.{
  Value, scalar, object, array, end, field, nil, cons, PathElement, name, FieldPath, get_field,
  delete_field, set_field, put, remove_last, step, has_path, remove_path,
}
use kubechecks.Removals.Trees.{names, starts_with, has_path-remove_path}
use kubechecks.Removals.Plan.{Set, OwnedSet, gather}
use kubechecks.Removals.Owned.{IsDue, gather-IsDue}

-- Scalars alone are compared.
abbrev equals : Value → Value → Bool
equals (scalar s) (scalar t) = bytes_eq s t
equals v w = false

abbrev same_element : PathElement → PathElement → Bool
same_element (name m) (name n) = bytes_eq m n
same_element p q = false

abbrev path_string : FieldPath → Bytes
path_string [] = []
path_string (name n ∷ p) = n
path_string (pe ∷ p) = []

-- `{"a": {"b": "x", "c": "y"}}`
abbrev live : Value
live = object (
    field (codes "a")
      (object (field (codes "b") (scalar (codes "x")) (field (codes "c") (scalar (codes "y")) end)))
      end)

-- `{"a": {"c": "y"}}`
abbrev smaller : Value
smaller = object (field (codes "a") (object (field (codes "c") (scalar (codes "y")) end)) end)

-- `{"a": [{"k": "x"}]}`
abbrev listed : Value
listed =
    object (
      field (codes "a") (array (cons (object (field (codes "k") (scalar (codes "x")) end)) nil))
        end)

has_path-remove_path_example : has_path equals smaller (names (codes "a" ∷ codes "c" ∷ [])) ≡ (
    has_path equals live (names (codes "a" ∷ codes "c" ∷ []))
    && not (starts_with (codes "a" ∷ codes "c" ∷ []) (codes "a" ∷ codes "b" ∷ [])))
unfolding remove_path step put remove_last get_field set_field delete_field bytes_eq
has_path-remove_path_example =
    has_path-remove_path equals live smaller (codes "a") (codes "b" ∷ [])
      (codes "a" ∷ codes "c" ∷ []) refl

abbrev applied : Set
applied = record { members = (name (codes "a") ∷ name (codes "b") ∷ []) ∷ []; has = λ p. true }

abbrev other : OwnedSet
other = record {
  owner = codes "kubectl/Update";
  set = record { members = (name (codes "a") ∷ name (codes "c") ∷ []) ∷ []; has = λ p. false };
}

gather-IsDue_example :
    All
      (IsDue equals same_element path_string smaller (some applied) (other ∷ []))
      (gather equals same_element path_string smaller (some applied) (other ∷ [])).removals
gather-IsDue_example =
    gather-IsDue equals same_element path_string smaller (some applied) (other ∷ [])
