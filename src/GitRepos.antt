-- ===== src/GitRepos.antt =====
-- pkg/git/manager.go, with `New`, `CreateTempBranch` and `sanitizeBranchName` of pkg/git/repo.go:
-- clones that are kept between checks. What go-git and the file system answer is data of a call.
-- Clone URLs are ASCII. The order of the map of repositories is that of the list.
pub mod Names
pub mod Unused
use kubechecks.Common.{
  ℕ, zero, suc, ◌+◌, ◌-◌, ◌%◌, ◌^◌, Bytes, codes, Bool, true, false, ◌&&◌, ◌||◌, not, List, [], ◌∷◌,
  ◌++◌, Option, none, some, lookup, insert, delete, bytes_eq, bytes_instance, ltb, if◌then◌else◌,
  is_empty, inl, inr, ◌⊎◌,
}
use kubechecks.CommitState.{to_lower}
use kubechecks.RepoUrl.{trim_suffix}
use kubechecks.Archive.{positive32}
use kubechecks.GitRepos.Names.{sanitize_branch_name}

-- `Repo`, without the configuration.
pub record Repo : Type 0 where
  pub branch_name : Bytes
  pub clone_url : Bytes
  pub directory : Bytes
  pub temp_branch : Bytes
  pub base_branch_name : Bytes

-- `refCount` is an `int32`, kept as its bit pattern.
pub record PersistentRepo : Type 0 where
  pub repo : Repo
  pub last_used : ℕ
  pub ref_count : ℕ
  pub base_branch : Bytes

pub record RepoManager : Type 0 where
  pub repos : List (Bytes × PersistentRepo)
  pub persistent_dir : Bytes
  pub ttl : ℕ
  -- The directories that `Wipe` removed, oldest first.
  pub wiped : List Bytes

pub data GitError : Type 0 where
  clone_failed : GitError
  move_failed : GitError
  update_failed : GitError
  branch_failed : GitError

-- What git, the file system and the clock answer in a call of `Clone`: the temporary directory of a
-- new clone, whether it can be moved, whether the branch can be checked out and updated, the
-- commit, whether the new branch can be made, and the times.
pub record Git : Type 0 where
  pub cloned : Option Bytes
  pub moved : Bool
  pub checked_out : Bool
  pub updated : Bool
  pub sha : Option Bytes
  pub branched : Bool
  pub identifier : Bytes
  pub now : ℕ

-- `atomic.AddInt32(&pr.refCount, -1)`
unfoldable pub dec32 : ℕ → ℕ
dec32 n = (n + (2 ^ 32 - 1)) % 2 ^ 32

unfoldable pub new_repo_manager : Bytes → ℕ → RepoManager
new_repo_manager dir ttl = record { repos = []; persistent_dir = dir; ttl = ttl; wiped = [] }

-- `generateRepoKey`
unfoldable pub generate_repo_key : Bytes → Bytes
generate_repo_key clone_url = trim_suffix (to_lower clone_url) (codes ".git")

-- `New`
unfoldable pub new_repo : Bytes → Bytes → Repo
new_repo clone_url branch_name = record {
  branch_name = (if is_empty branch_name then codes "HEAD" else branch_name);
  clone_url = clone_url;
  directory = [];
  temp_branch = [];
  base_branch_name = [];
}

-- The name that `CreateTempBranch` gives a branch.
unfoldable pub temp_branch_name : Bytes → Bytes → Bytes
temp_branch_name identifier sha =
    codes "temp-pr-" ++ (sanitize_branch_name identifier ++ (codes "-" ++ sanitize_branch_name sha))

-- `UpdateBaseBranch`: the entry behind it, and whether it fails. Only a failure to update leaves
-- the branch changed and the rest as it was.
unfoldable pub update_base_branch : Git → PersistentRepo → Bytes → Bool × PersistentRepo
update_base_branch git pr base_branch =
    let switches = not (is_empty base_branch) && not (bytes_eq pr.repo.branch_name base_branch) in
    let pr' =
      if switches then record pr { repo = record pr.repo { branch_name = base_branch } } else pr in
    if switches && not git.checked_out
    then (false, pr)
    else if git.updated
    then (true, record pr' { base_branch = base_branch; last_used = git.now })
    else (false, pr')

-- What `Clone` does with the entry that it got.
unfoldable pub branch_off :
    RepoManager → Git → Bytes → Bytes → GitError ⊎ PersistentRepo → (GitError ⊎ Repo) × RepoManager
unfolding update_base_branch
branch_off rm git clone_url branch_name (inl err) = (inl err, rm)
branch_off rm git clone_url branch_name (inr pr) =
    let (updated, pr') = update_base_branch git pr branch_name in
    let rm' : RepoManager = record rm {
      repos = insert (generate_repo_key clone_url) pr' rm.repos;
    } in
    let sha : Bytes = elim git.sha [ none ↦ codes "00000000" | some s ↦ s ] in
    if not updated
    then (inl update_failed, rm')
    else if not git.branched
    then (inl branch_failed, rm')
    else (
      inr (record pr'.repo {
        temp_branch = temp_branch_name git.identifier sha;
        base_branch_name = branch_name;
      }),
      rm',
    )

-- `sanitizeRepoName` is the hex digest of a hash that is not the program's own.
module _ (sanitize_repo_name : Bytes → Bytes) where
  -- `GetOrCloneRepo`: the entry, and the manager behind it.
  unfoldable pub get_or_clone_repo :
      RepoManager → Git → Bytes → Bytes → (GitError ⊎ PersistentRepo) × RepoManager
  unfolding new_repo
  get_or_clone_repo rm git clone_url base_branch =
      let repo_key = generate_repo_key clone_url in
      let repo = new_repo clone_url base_branch in
      elim (lookup repo_key rm.repos) [
        | some pr ↦ (inr pr, rm)
        | none ↦ elim git.cloned [
          | none ↦ (inl clone_failed, rm)
          | some temp_dir ↦
              let pr : PersistentRepo = record {
                repo = record repo {
                  directory = rm.persistent_dir ++ (codes "/" ++ sanitize_repo_name clone_url);
                };
                last_used = git.now;
                ref_count = 0;
                base_branch = base_branch;
              } in
              if git.moved
              then (inr pr, record rm { repos = insert repo_key pr rm.repos })
              else (inl move_failed, rm)
        ]
      ]

  -- `Clone` of the persistent manager.
  unfoldable pub clone : RepoManager → Git → Bytes → Bytes → (GitError ⊎ Repo) × RepoManager
  unfolding get_or_clone_repo branch_off
  clone rm git clone_url branch_name =
      let (result, rm') = get_or_clone_repo rm git clone_url branch_name in
      branch_off rm' git clone_url branch_name result

-- `ReleaseRepo`
unfoldable pub release_repo : RepoManager → ℕ → Bytes → RepoManager
unfolding dec32
release_repo rm now clone_url =
    let repo_key = generate_repo_key clone_url in
    elim (lookup repo_key rm.repos) [
      | none ↦ rm
      | some pr ↦ record rm {
        repos =
            insert repo_key (record pr { ref_count = dec32 pr.ref_count; last_used = now })
              rm.repos;
      }
    ]

-- `CleanupTempBranchForRepo`; what fails in git is only logged.
unfoldable pub cleanup_temp_branch_for_repo : RepoManager → ℕ → Repo → RepoManager
unfolding release_repo
cleanup_temp_branch_for_repo rm now repo =
    if is_empty repo.temp_branch then rm else release_repo rm now repo.clone_url

-- The tests of `cleanupStaleRepos` on an entry.
unfoldable pub is_removable : ℕ → ℕ → PersistentRepo → Bool
unfolding positive32
is_removable ttl now pr = not (positive32 pr.ref_count) && ltb (pr.last_used + ttl) now

-- `cleanupStaleRepos`: the entries that stay, and the directories that are wiped.
unfoldable pub stale_repos :
    ℕ → ℕ → List (Bytes × PersistentRepo) → List (Bytes × PersistentRepo) × List Bytes
unfolding is_removable
stale_repos ttl now [] = ([], [])
stale_repos ttl now ((k, pr) ∷ rs) =
    let (stay, wiped) = stale_repos ttl now rs in
    if is_removable ttl now pr then (stay, pr.repo.directory ∷ wiped) else ((k, pr) ∷ stay, wiped)

unfoldable pub cleanup_stale_repos : RepoManager → ℕ → RepoManager
unfolding stale_repos
cleanup_stale_repos rm now =
    let (stay, wiped) = stale_repos rm.ttl now rm.repos in
    record rm { repos = stay; wiped = rm.wiped ++ wiped }

-- `EphemeralRepoManager`: the repositories that were cloned, and the directories that were wiped.
pub record EphemeralRepoManager : Type 0 where
  pub clones : List Repo
  pub wiped : List Bytes

-- `Clone` of the ephemeral manager, with the directory that git clones into.
unfoldable pub clone_ephemeral :
    EphemeralRepoManager → Option Bytes → Bytes → Bytes → Option Repo × EphemeralRepoManager
unfolding new_repo
clone_ephemeral rm cloned clone_url branch_name = elim cloned [
  | none ↦ (none, rm)
  | some dir ↦
      let repo = record (new_repo clone_url branch_name) { directory = dir } in
      (some repo, record rm { clones = rm.clones ++ repo ∷ [] })
]

abbrev pub directories : List Repo → List Bytes
directories [] = []
directories (r ∷ rs) = r.directory ∷ directories rs

unfoldable pub cleanup_ephemeral : EphemeralRepoManager → EphemeralRepoManager
cleanup_ephemeral rm = record rm { wiped = rm.wiped ++ directories rm.clones }
