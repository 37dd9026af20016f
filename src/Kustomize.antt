-- ===== src/Kustomize.antt =====
-- pkg/kustomize/process.go: the files and directories that a kustomization refers to. The file
-- system and the parser of YAML are parameters. The set of visited directories, which the calls
-- share, is passed on as a list. A nil error is a result of files and directories.
pub mod Fuel
pub mod Results
pub mod Covering
pub mod Reaching
use kubechecks.Common.{
  ℕ, zero, suc, Bytes, codes, newline, Bool, true, false, ◌||◌, List, [], ◌∷◌, ◌++◌, Option, none,
  some, reverse, trim_left, bytes_eq, has_prefix, contains, is_empty, if◌then◌else◌,
}
use kubechecks.RepoUrl.{trim_prefix}
use kubechecks.AppDir.{join_two, elements, clean}
use kubechecks.Affected.{path_dir}

-- `types.Kustomization`, as far as it is read: the values files of its charts, and the paths and
-- texts of its patches.
pub record Kustomization : Type 0 where
  pub bases : List Bytes
  pub resources : List Bytes
  pub components : List Bytes
  pub configurations : List Bytes
  pub crds : List Bytes
  pub transformers : List Bytes
  pub values_files : List Bytes
  pub patches : List Bytes
  pub patches_json6902 : List Bytes
  pub patches_strategic_merge : List Bytes

-- Opening, reading and parsing the kustomization.yaml of a directory.
pub data Opened : Type 0 where
  not_there : Opened
  broken : Opened
  parsed : Kustomization → Opened

-- Opening a path and asking what it is.
pub data Stat : Type 0 where
  unknown : Stat
  is_dir : Stat
  is_file : Stat

pub record FileSystem : Type 0 where
  pub open_kustomization : Bytes → Opened
  pub stat : Bytes → Stat

pub data Outcome : Type 0 where
  found : List Bytes → List Bytes → Outcome
  failed : Outcome
  out_of_fuel : Outcome

-- Whether a path is in a list, or in the set of visited directories.
unfoldable pub listed : Bytes → List Bytes → Bool
listed x [] = false
listed x (y ∷ ys) = bytes_eq y x || listed x ys

unfoldable pub is_remote_resource : Bytes → Bool
is_remote_resource resource =
    contains resource (codes "://")
    || has_prefix resource (codes "git@")
    || has_prefix resource (codes "github.com/")
    || has_prefix resource (codes "bitbucket.org/")
    || has_prefix resource (codes "gitlab.com/")
    || has_prefix resource (codes "//")

unfoldable pub clean_path : Bytes → Bytes → Bytes
unfolding trim_prefix
clean_path base path =
    if has_prefix path (codes "/") then trim_prefix path (codes "/") else join_two base path

unfoldable pub clean_paths : Bytes → List Bytes → List Bytes
unfolding is_remote_resource clean_path
clean_paths base [] = []
clean_paths base (path ∷ paths) =
    let rest = clean_paths base paths in
    if is_remote_resource path then rest else clean_path base path ∷ rest

-- The paths of patches that have one, and the strategic merge patches that are not given inline.
unfoldable pub patch_paths : List Bytes → List Bytes
patch_paths [] = []
patch_paths (p ∷ ps) = let rest = patch_paths ps in if is_empty p then rest else p ∷ rest

unfoldable pub patch_files : List Bytes → List Bytes
patch_files [] = []
patch_files (p ∷ ps) =
    let rest = patch_files ps in if contains p (newline ∷ []) then rest else p ∷ rest

unfoldable pub referenced_files : Kustomization → List Bytes
unfolding patch_paths patch_files
referenced_files k =
    codes "kustomization.yaml"
    ∷ (k.configurations
        ++ (k.crds
            ++ (k.transformers
                ++ (k.values_files
                    ++ (patch_paths k.patches
                        ++ (patch_paths k.patches_json6902
                            ++ patch_files k.patches_strategic_merge))))))

-- `append` to the files or directories, by what each path is.
unfoldable pub sort_out :
    FileSystem → List Bytes → List Bytes → List Bytes → Option (List Bytes × List Bytes)
sort_out fs [] files dirs = some (files, dirs)
sort_out fs (path ∷ paths) files dirs = elim (fs.stat path) [
  | unknown ↦ none
  | is_dir ↦ sort_out fs paths files (dirs ++ path ∷ [])
  | is_file ↦ sort_out fs paths (files ++ path ∷ []) dirs
]

-- The files and directories of one kustomization.
unfoldable pub contents : FileSystem → Bytes → Kustomization → Option (List Bytes × List Bytes)
unfolding clean_paths referenced_files sort_out
contents fs base k =
    sort_out fs (clean_paths base (k.bases ++ k.resources)) (clean_paths base (referenced_files k))
      (clean_paths base k.components)

-- The results of a directory joined with those of what follows.
unfoldable pub add_found : List Bytes → List Bytes → Outcome × List Bytes → Outcome × List Bytes
add_found files dirs (found more_files more_dirs, visited) =
    (found (files ++ more_files) (dirs ++ more_dirs), visited)
add_found files dirs (failed, visited) = (failed, visited)
add_found files dirs (out_of_fuel, visited) = (out_of_fuel, visited)

unfoldable pub and_then :
    Outcome × List Bytes → (List Bytes → Outcome × List Bytes) → Outcome × List Bytes
unfolding add_found
and_then (found files dirs, visited) next = add_found files dirs (next visited)
and_then (failed, visited) next = (failed, visited)
and_then (out_of_fuel, visited) next = (out_of_fuel, visited)

-- The loop over the directories of a kustomization.
unfoldable pub process_all :
    (List Bytes → Bytes → Outcome × List Bytes) → List Bytes → List Bytes → Outcome × List Bytes
unfolding and_then
process_all process visited [] = (found [] [], visited)
process_all process visited (dir ∷ dirs) =
    and_then (process visited dir) (λ visited'. process_all process visited' dirs)

-- What is done with a kustomization's files and directories, as the file system has them.
unfoldable pub follow :
    (List Bytes → Bytes → Outcome × List Bytes)
    → List Bytes
    → Option (List Bytes × List Bytes)
    → Outcome × List Bytes
unfolding process_all
follow process visited none = (failed, visited)
follow process visited (some (files, dirs)) = add_found files [] (process_all process visited dirs)

unfoldable pub enter :
    FileSystem
    → (List Bytes → Bytes → Outcome × List Bytes)
    → List Bytes
    → Bytes
    → Opened
    → Outcome × List Bytes
unfolding follow contents
enter fs process visited base not_there = (found [] (base ∷ []), visited)
enter fs process visited base broken = (failed, visited)
enter fs process visited base (parsed k) = follow process visited (contents fs base k)

-- `processDir`, with fuel for the depth of the calls.
unfoldable pub process_dir : FileSystem → ℕ → List Bytes → Bytes → Outcome × List Bytes
unfolding listed enter
process_dir fs zero visited base = (out_of_fuel, visited)
process_dir fs (suc fuel) visited base =
    if listed base visited
    then (found [] [], visited)
    else enter fs (process_dir fs fuel) (base ∷ visited) base (fs.open_kustomization base)

unfoldable pub last_element : List Bytes → Bytes
last_element [] = []
last_element (e ∷ []) = e
last_element (e ∷ (f ∷ es)) = last_element (f ∷ es)

-- `filepath.Base`, but for a path of slashes alone, which it names otherwise.
unfoldable pub path_base : Bytes → Bytes
unfolding last_element elements
path_base path = last_element (elements [] (reverse (trim_left b'/' (reverse path))))

-- `ProcessKustomizationFile`
unfoldable pub process_kustomization_file : FileSystem → ℕ → Bytes → Outcome
unfolding path_base process_dir
process_kustomization_file fs fuel path =
    if bytes_eq (path_base path) (codes "kustomization.yaml")
    then (process_dir fs fuel [] (path_dir path)).0
    else failed
