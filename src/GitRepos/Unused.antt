-- ===== src/GitRepos/Unused.antt =====
-- pkg/git/manager.go: the reference counts, which are only ever decremented.
use kubechecks.Common.{
  ℕ, suc, ◌+◌, ◌≤◌, ◌<◌, ◌++◌, ◌^◌, Bytes, false, List, [], ◌∷◌, some, lookup, insert, bytes_eq,
  bytes_instance, ltb, if◌then◌else◌, is_empty, inl, inr, ◌⊎◌, ◌≡◌, refl, arith, All, length,
  Bool-cases, Option-cases, subst, sym,
}
use kubechecks.Archive.{positive32}
use kubechecks.GitRepos.{
  Repo, PersistentRepo, RepoManager, Git, GitError, dec32, get_or_clone_repo, update_base_branch,
  branch_off, clone, release_repo, cleanup_temp_branch_for_repo, is_removable, stale_repos,
  cleanup_stale_repos, generate_repo_key, new_repo_manager,
}

-- What the program calls on a manager.
pub data Use : Type 0 where
  clones : Git → Bytes → Bytes → Use
  releases : ℕ → Bytes → Use
  cleans_branch : ℕ → Repo → Use
  cleans : ℕ → Use

-- The reference count after at most so many decrements from 0.
unfoldable pub IsUnheld : ℕ → PersistentRepo → Type 0
IsUnheld m pr = (pr.ref_count ≡ 0) ⊎ ((2 ^ 32 ≤ pr.ref_count + m) × (pr.ref_count < 2 ^ 32))

abbrev AllUnheld : ℕ → List (Bytes × PersistentRepo) → Type 0
AllUnheld m = All (λ e. IsUnheld m (e.1))

AllUnheld-insert :
    (m : ℕ) (k : Bytes) (pr : PersistentRepo) (rs : List (Bytes × PersistentRepo))
    → IsUnheld m pr
    → AllUnheld m rs
    → AllUnheld m (insert k pr rs)
unfolding insert
AllUnheld-insert m k pr [] p h = (p, tt)
AllUnheld-insert m k pr ((j, old) ∷ rs) p h = elim (Bool-cases (bytes_eq j k)) [
  | inl e ↦ rw e (p, h.1)
  | inr e ↦ rw e (h.0, AllUnheld-insert m k pr rs p h.1)
]

AllUnheld-lookup :
    (m : ℕ) (k : Bytes) (pr : PersistentRepo) (rs : List (Bytes × PersistentRepo))
    → lookup k rs ≡ some pr
    → AllUnheld m rs
    → IsUnheld m pr
unfolding lookup
AllUnheld-lookup m k pr [] e h = absurd (cc e)
AllUnheld-lookup m k pr ((j, old) ∷ rs) e h = elim (Bool-cases (bytes_eq j k)) [
  | inl f ↦ subst (IsUnheld m) (ground arith) h.0
  | inr f ↦ AllUnheld-lookup m k pr rs (ground arith) h.1
]

IsUnheld-suc : (m : ℕ) (pr : PersistentRepo) → IsUnheld m pr → IsUnheld (suc m) pr
unfolding IsUnheld
IsUnheld-suc m pr h = ground arith

AllUnheld-suc : (m : ℕ) (rs : List (Bytes × PersistentRepo)) → AllUnheld m rs → AllUnheld (suc m) rs
AllUnheld-suc m [] h = tt
AllUnheld-suc m ((k, pr) ∷ rs) h = (IsUnheld-suc m pr h.0, AllUnheld-suc m rs h.1)

dec32-IsUnheld :
    (m now : ℕ) (pr : PersistentRepo)
    → IsUnheld m pr
    → m < 2 ^ 31
    → IsUnheld (suc m) (record pr { ref_count = dec32 pr.ref_count; last_used = now })
unfolding IsUnheld dec32
dec32-IsUnheld m now pr h b = ground arith

-- The entries, and the one that is returned.
abbrev Fits : ℕ → (GitError ⊎ PersistentRepo) × RepoManager → Type 0
Fits m (inl err, rm) = AllUnheld m rm.repos
Fits m (inr pr, rm) = IsUnheld m pr × AllUnheld m rm.repos

update_base_branch-IsUnheld :
    (m : ℕ) (git : Git) (pr : PersistentRepo) (branch : Bytes)
    → IsUnheld m pr
    → IsUnheld m (update_base_branch git pr branch).1
unfolding IsUnheld update_base_branch
update_base_branch-IsUnheld m git pr branch h = ground arith

branch_off-AllUnheld :
    (m : ℕ) (git : Git) (url branch : Bytes) (r : (GitError ⊎ PersistentRepo) × RepoManager)
    → Fits m r
    → AllUnheld m (branch_off r.1 git url branch r.0).1.repos
unfolding branch_off
branch_off-AllUnheld m git url branch (inl err, rm) h = h
branch_off-AllUnheld m git url branch (inr pr, rm) h =
    let stays =
      AllUnheld-insert m (generate_repo_key url) _ rm.repos
        (update_base_branch-IsUnheld m git pr branch h.0) h.1 in
    elim (Bool-cases (update_base_branch git pr branch).0) [
      | inr e ↦ rw e stays
      | inl e ↦ elim (Bool-cases git.branched) [ inr f ↦ rw (e, f) stays | inl f ↦ rw (e, f) stays ]
    ]

release_repo-AllUnheld :
    (m now : ℕ) (rm : RepoManager) (url : Bytes)
    → AllUnheld m rm.repos
    → m < 2 ^ 31
    → AllUnheld (suc m) (release_repo rm now url).repos
unfolding release_repo
release_repo-AllUnheld m now rm url h b =
    elim (Option-cases (lookup (generate_repo_key url) rm.repos)) [
      | inl e ↦ rw (release_repo, e) (AllUnheld-suc m rm.repos h)
      | inr (pr, e) ↦
          let held = AllUnheld-lookup m (generate_repo_key url) pr rm.repos e h in
          rw (release_repo, e)
            (AllUnheld-insert (suc m) (generate_repo_key url) _ rm.repos
              (dec32-IsUnheld m now pr held b) (AllUnheld-suc m rm.repos h))
    ]

stale_repos-AllUnheld :
    (m ttl now : ℕ) (rs : List (Bytes × PersistentRepo))
    → AllUnheld m rs
    → AllUnheld m (stale_repos ttl now rs).0
unfolding stale_repos
stale_repos-AllUnheld m ttl now [] h = tt
stale_repos-AllUnheld m ttl now ((k, pr) ∷ rs) h =
    let rest = stale_repos-AllUnheld m ttl now rs h.1 in
    elim (Bool-cases (is_removable ttl now pr)) [ inl e ↦ rw e rest | inr e ↦ rw e (h.0, rest) ]

-- The cleanup by time alone.
unfoldable pub drop_overdue :
    ℕ → ℕ → List (Bytes × PersistentRepo) → List (Bytes × PersistentRepo) × List Bytes
drop_overdue ttl now [] = ([], [])
drop_overdue ttl now ((k, pr) ∷ rs) =
    let (stay, wiped) = drop_overdue ttl now rs in
    if ltb (pr.last_used + ttl) now
    then (stay, pr.repo.directory ∷ wiped)
    else ((k, pr) ∷ stay, wiped)

positive32-IsUnheld :
    (m : ℕ) (pr : PersistentRepo) → IsUnheld m pr → m ≤ 2 ^ 31 → positive32 pr.ref_count ≡ false
unfolding IsUnheld positive32
positive32-IsUnheld m pr h b = ground arith

stale_repos-drop_overdue :
    (m ttl now : ℕ) (rs : List (Bytes × PersistentRepo))
    → AllUnheld m rs
    → m ≤ 2 ^ 31
    → stale_repos ttl now rs ≡ drop_overdue ttl now rs
unfolding stale_repos drop_overdue is_removable
stale_repos-drop_overdue m ttl now [] h b = refl
stale_repos-drop_overdue m ttl now ((k, pr) ∷ rs) h b =
    rw (positive32-IsUnheld m pr h.0 b, stale_repos-drop_overdue m ttl now rs h.1 b) refl

module _ (sanitize_repo_name : Bytes → Bytes) where
  get_or_clone_repo-Fits :
      (m : ℕ) (rm : RepoManager) (git : Git) (url branch : Bytes)
      → AllUnheld m rm.repos
      → Fits m (get_or_clone_repo sanitize_repo_name rm git url branch)
  unfolding get_or_clone_repo IsUnheld
  get_or_clone_repo-Fits m rm git url branch h =
      elim (Option-cases (lookup (generate_repo_key url) rm.repos)) [
        | inr (old, e) ↦ rw (get_or_clone_repo, e) (AllUnheld-lookup m _ old rm.repos e h, h)
        | inl e ↦ elim (Option-cases git.cloned) [
          | inl f ↦ rw (get_or_clone_repo, e, f) h
          | inr (dir, f) ↦ elim (Bool-cases git.moved) [
            | inl g ↦
                rw (get_or_clone_repo, e, f, g)
                  (inl refl, AllUnheld-insert m _ _ rm.repos (inl refl) h)
            | inr g ↦ rw (get_or_clone_repo, e, f, g) h
          ]
        ]
      ]

  unfoldable pub use_once : RepoManager → Use → RepoManager
  use_once rm (clones git url branch) = (clone sanitize_repo_name rm git url branch).1
  use_once rm (releases now url) = release_repo rm now url
  use_once rm (cleans_branch now repo) = cleanup_temp_branch_for_repo rm now repo
  use_once rm (cleans now) = cleanup_stale_repos rm now

  unfoldable pub use_all : RepoManager → List Use → RepoManager
  unfolding use_once
  use_all rm [] = rm
  use_all rm (u ∷ us) = use_all (use_once rm u) us

  use_once-AllUnheld :
      (m : ℕ) (u : Use) (rm : RepoManager)
      → AllUnheld m rm.repos
      → m < 2 ^ 31
      → AllUnheld (suc m) (use_once rm u).repos
  unfolding use_once clone cleanup_temp_branch_for_repo cleanup_stale_repos
  use_once-AllUnheld m (clones git url branch) rm h b = AllUnheld-suc m _ (
      branch_off-AllUnheld m git url branch (get_or_clone_repo sanitize_repo_name rm git url branch)
        (get_or_clone_repo-Fits m rm git url branch h))
  use_once-AllUnheld m (releases now url) rm h b = release_repo-AllUnheld m now rm url h b
  use_once-AllUnheld m (cleans_branch now repo) rm h b =
      elim (Bool-cases (is_empty repo.temp_branch)) [
        | inl e ↦ rw e (AllUnheld-suc m _ h)
        | inr e ↦ rw e (release_repo-AllUnheld m now rm repo.clone_url h b)
      ]
  use_once-AllUnheld m (cleans now) rm h b =
      AllUnheld-suc m _ (stale_repos-AllUnheld m rm.ttl now rm.repos h)

  use_all-AllUnheld :
      (us : List Use) (m : ℕ) (rm : RepoManager)
      → AllUnheld m rm.repos
      → m + length us < 2 ^ 31
      → AllUnheld (m + length us) (use_all rm us).repos
  unfolding use_all
  use_all-AllUnheld [] m rm h b = subst (λ k. AllUnheld k rm.repos) (omega arith) h
  use_all-AllUnheld (u ∷ us) m rm h b =
      subst (λ k. AllUnheld k (use_all (use_once rm u) us).repos) (omega arith)
        (use_all-AllUnheld us (suc m) (use_once rm u) (use_once-AllUnheld m u rm h (omega arith))
          (omega arith))

  -- After fewer than 2^31 clones, releases and cleanups of any kind, starting from an empty cache,
  -- a cleanup goes by time alone: the reference counts keep no repository, whoever works in it.
  pub cleanup_stale_repos-use_all :
      (dir : Bytes) (ttl : ℕ) (us : List Use) (rm : RepoManager) (now : ℕ)
      → rm ≡ use_all (new_repo_manager dir ttl) us
      → length us < 2 ^ 31
      → cleanup_stale_repos rm now ≡ record rm {
        repos = (drop_overdue rm.ttl now rm.repos).0;
        wiped = rm.wiped ++ (drop_overdue rm.ttl now rm.repos).1;
      }
  unfolding new_repo_manager cleanup_stale_repos
  cleanup_stale_repos-use_all dir ttl us rm now e b =
      let unheld =
        subst (λ r. AllUnheld (0 + length us) r.repos) (sym e)
          (use_all-AllUnheld us 0 _ tt (omega arith)) in
      rw (stale_repos-drop_overdue (0 + length us) rm.ttl now rm.repos unheld (omega arith)) refl
