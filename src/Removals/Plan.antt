-- ===== src/Removals/Plan.antt =====
-- pkg/checks/diff/removals.go: `applyFieldRemovals`, which of the applied fields it removes, and
-- which it retains since another manager owns them. The managed fields come as they are decoded.
-- Without any set the code returns at once; here both loops are empty then. `dedupeRetained` is on
-- what `gather` returns, and `writeRetained` is left out.
use kubechecks.Common.{
  Bytes, codes, Bool, true, false, ◌&&◌, ◌||◌, not, List, [], ◌∷◌, ◌++◌, Option, none, some, lookup,
  insert, bytes_eq, bytes_instance, is_empty, if◌then◌else◌,
}
use kubechecks.Msg.Comment.{insert_key}
use kubechecks.Removals.{Value, FieldPath, PathElement, has_path, removal_point, remove_path}

-- `fieldpath.Set`: the paths of `Iterate`, in its order, and `Has`.
pub record Set : Type 0 where
  pub members : List FieldPath
  pub has : FieldPath → Bool

pub record OwnedSet : Type 0 where
  pub owner : Bytes
  pub set : Set

pub record RetainedField : Type 0 where
  pub path : FieldPath
  pub owners : List Bytes

-- `metav1.ManagedFieldsEntry`; no fields at all is `none`, and fields that do not decode are
-- `some none`.
pub record ManagedFields : Type 0 where
  pub manager : Bytes
  pub operation : Bytes
  pub subresource : Bytes
  pub fields : Option (Option Set)

-- `splitManagedFields`: the applied set, and the others; `none` is an error.
unfoldable pub split_managed_fields :
    List ManagedFields → Option Set → List OwnedSet → Option (Option Set × List OwnedSet)
split_managed_fields [] applied others = some (applied, others)
split_managed_fields (e ∷ es) applied others =
    let skipped = split_managed_fields es applied others in
    elim e.fields [
      | none ↦ skipped
      | some decoded ↦ elim (is_empty e.subresource) [
        | false ↦ skipped
        | true ↦ elim decoded [
          | none ↦ none
          | some s ↦
              elim (bytes_eq e.manager (codes "argocd-controller")
                && bytes_eq e.operation (codes "Apply")) [
                  | true ↦ split_managed_fields es (some s) others
                  | false ↦ split_managed_fields es applied (
                      others
                      ++ record { owner = e.manager ++ (codes "/" ++ e.operation); set = s } ∷ [])
                ]
        ]
      ]
    ]

unfoldable pub is_argo_cd_residue : Bytes → Bool
is_argo_cd_residue owner =
    bytes_eq owner (codes "argocd-controller/Update")
    || bytes_eq owner (codes "argocd-server/Update")

unfoldable pub owners_of : List OwnedSet → FieldPath → List Bytes
owners_of [] p = []
owners_of (o ∷ os) p = let rest = owners_of os p in if o.set.has p then o.owner ∷ rest else rest

-- `sort.Strings`
unfoldable pub sort_strings : List Bytes → List Bytes
unfolding insert_key
sort_strings [] = []
sort_strings (k ∷ ks) = insert_key k (sort_strings ks)

-- The loop of `uniqueSorted`, behind a text that it has looked at.
unfoldable pub unique_behind : Bytes → List Bytes → List Bytes
unique_behind last [] = []
unique_behind last (s ∷ ss) =
    let rest = unique_behind s ss in if bytes_eq s last then rest else s ∷ rest

unfoldable pub unique_run : List Bytes → List Bytes
unfolding unique_behind
unique_run [] = []
unique_run (s ∷ ss) = s ∷ unique_behind s ss

unfoldable pub unique_sorted : List Bytes → List Bytes
unfolding sort_strings unique_run
unique_sorted owners = unique_run (sort_strings owners)

-- What `applyFieldRemovals` has gathered in its loops.
pub record Gathered : Type 0 where
  pub retained : List RetainedField
  pub removals : List FieldPath
  pub seen : List (Bytes × Bool)

-- `Equals` of path elements and `String` of paths are `fieldpath`'s.
module _ (equals : Value → Value → Bool) (same_element : PathElement → PathElement → Bool)
    (path_string : FieldPath → Bytes) where
  unfoldable pub has_prefix_path : FieldPath → FieldPath → Bool
  has_prefix_path p [] = true
  has_prefix_path [] (q ∷ qs) = false
  has_prefix_path (e ∷ p) (q ∷ qs) = same_element q e && has_prefix_path p qs

  unfoldable pub any_under : List FieldPath → FieldPath → Bool
  unfolding has_prefix_path
  any_under [] prefix = false
  any_under (p ∷ ps) prefix = has_prefix_path p prefix || any_under ps prefix

  unfoldable pub owned_under : List OwnedSet → FieldPath → Bool
  unfolding any_under
  owned_under [] prefix = false
  owned_under (o ∷ os) prefix = any_under o.set.members prefix || owned_under os prefix

  -- What is removed for an applied path that the target lacks.
  unfoldable pub removal_of : Value → List OwnedSet → FieldPath → FieldPath
  removal_of target others p =
      let r = removal_point equals target p in if owned_under others r then p else r

  -- The visit of an applied path.
  unfoldable pub visit : Value → List OwnedSet → Gathered → FieldPath → Gathered
  unfolding removal_of
  visit target others g p =
      let owners = owners_of others p in
      let r = removal_of target others p in
      if has_path equals target p
      then g
      else if not (is_empty owners)
      then record g { retained = g.retained ++ record { path = p; owners = owners } ∷ [] }
      else elim (lookup (path_string r) g.seen) [
        | some b ↦ g
        | none ↦ record g {
          removals = g.removals ++ r ∷ [];
          seen = insert (path_string r) true g.seen;
        }
      ]

  unfoldable pub visit_all : Value → List OwnedSet → Gathered → List FieldPath → Gathered
  visit_all target others g [] = g
  visit_all target others g (p ∷ ps) = visit_all target others (visit target others g p) ps

  -- The visit of a path that Argo CD owns through a client-side sync.
  unfoldable pub visit_residue :
      Value → Option Set → List OwnedSet → Gathered → FieldPath → Gathered
  visit_residue target applied others g p =
      let is_applied : Bool = elim applied [ none ↦ false | some s ↦ s.has p ] in
      if has_path equals target p || is_applied then g else record g {
        retained = g.retained ++ record { path = p; owners = owners_of others p } ∷ [];
      }

  unfoldable pub visit_residues :
      Value → Option Set → List OwnedSet → Gathered → List FieldPath → Gathered
  visit_residues target applied others g [] = g
  visit_residues target applied others g (p ∷ ps) =
      visit_residues target applied others (visit_residue target applied others g p) ps

  unfoldable pub visit_owners :
      Value → Option Set → List OwnedSet → Gathered → List OwnedSet → Gathered
  unfolding visit_residues is_argo_cd_residue
  visit_owners target applied others g [] = g
  visit_owners target applied others g (o ∷ os) =
      visit_owners target applied others
        (if is_argo_cd_residue o.owner
          then visit_residues target applied others g o.set.members
          else g)
        os

  -- `for _, r := range removals { … }`: the tree, and whether it was modified.
  unfoldable pub remove_all : Value → Bool → List FieldPath → Value × Bool
  remove_all predicted modified [] = (predicted, modified)
  remove_all predicted modified (r ∷ rs) = elim (remove_path equals predicted r) [
    | none ↦ remove_all predicted modified rs
    | some smaller ↦ remove_all smaller true rs
  ]

  -- The first loop of `applyFieldRemovals`, where there is an applied set.
  unfoldable pub visit_applied : Value → Option Set → List OwnedSet → Gathered
  unfolding visit_all
  visit_applied target none others = record { retained = []; removals = []; seen = [] }
  visit_applied target (some s) others =
      visit_all target others (record { retained = []; removals = []; seen = [] }) s.members

  -- Both loops, for the sets that `splitManagedFields` finds.
  unfoldable pub gather : Value → Option Set → List OwnedSet → Gathered
  unfolding visit_applied visit_owners
  gather target applied others =
      visit_owners target applied others (visit_applied target applied others) others

  -- The loop of `dedupeRetained` over its input: the map, and its keys in the order of arrival.
  unfoldable pub merge_retained :
      List (Bytes × RetainedField)
      → List Bytes
      → List RetainedField
      → List (Bytes × RetainedField) × List Bytes
  merge_retained by_path order [] = (by_path, order)
  merge_retained by_path order (r ∷ rs) =
      let k = path_string r.path in
      elim (lookup k by_path) [
        | some existing ↦
            merge_retained
              (insert k (record existing { owners = existing.owners ++ r.owners }) by_path) order rs
        | none ↦ merge_retained (insert k r by_path) (order ++ k ∷ []) rs
      ]

  -- The loop of `dedupeRetained` over the sorted keys, each of which the map holds.
  unfoldable pub read_retained : List (Bytes × RetainedField) → List Bytes → List RetainedField
  unfolding unique_sorted
  read_retained by_path [] = []
  read_retained by_path (k ∷ ks) =
      let rest = read_retained by_path ks in
      elim (lookup k by_path) [
        | none ↦ rest
        | some r ↦ record r { owners = unique_sorted r.owners } ∷ rest
      ]

  unfoldable pub dedupe_retained : List RetainedField → List RetainedField
  unfolding merge_retained read_retained sort_strings
  dedupe_retained fields =
      let (by_path, order) = merge_retained [] [] fields in
      read_retained by_path (sort_strings order)

  -- The retained fields, the new prediction, and whether it differs.
  unfoldable pub apply_field_removals :
      Value → List ManagedFields → Option Value → Option (List RetainedField × Value × Bool)
  unfolding split_managed_fields gather remove_all dedupe_retained
  apply_field_removals predicted entries none = some ([], predicted, false)
  apply_field_removals predicted entries (some target) =
      elim (split_managed_fields entries none []) [
        | none ↦ none
        | some (applied, others) ↦
            let g = gather target applied others in
            let (smaller, modified) = remove_all predicted false g.removals in
            some (dedupe_retained g.retained, smaller, modified)
      ]
