-- ===== src/Events/Repos.antt =====
-- pkg/events/check.go: `getRepo`, which clones a repository once for a branch. A clone is a number;
-- its branch name, which may change, is looked up by it, so that two entries may share a clone.
use kubechecks.Common.{
  ℕ, suc, Bytes, codes, Bool, List, [], ◌∷◌, ◌++◌, Option, none, some, ◌≡◌, lookup, insert,
  lookup-insert, bytes_eq, bytes_eq_iff, bytes_instance, nat_eq, is_empty, length, trim_space,
  if◌then◌else◌, arith, ap, Option-cases, Bool-cases, inl, inr,
}
use kubechecks.RepoUrl.{RepoUrl, Url, canonicalize, clone_url}

pub data RepoError : Type 0 where
  bad_url : RepoError
  not_cloned : RepoError
  no_remote_head : RepoError

pub record Repos : Type 0 where
  pub cloned_repos : List (Bytes × ℕ)
  pub branch_names : List (ℕ × Bytes)
  -- The clones that were asked for, with their branches.
  pub clones : List (Bytes × Bytes)

-- `generateRepoKey`
unfoldable pub repo_key : RepoUrl → Bytes → Bytes
repo_key url branch = clone_url url [] ++ (codes "|||" ++ branch)

unfoldable pub store : Repos → Bytes → ℕ → Repos
store s key repo = record s { cloned_repos = insert key repo s.cloned_repos }

-- The entry for `HEAD`, if it is the branch that was cloned.
unfoldable pub store_head : Repos → RepoUrl → Bytes → ℕ → Option Bytes → Option RepoError × Repos
unfolding repo_key store
store_head s url branch repo remote_head =
    elim (lookup (repo_key url (codes "HEAD")) s.cloned_repos) [
      | some r ↦ (none, s)
      | none ↦ elim remote_head [
        | none ↦ (some no_remote_head, s)
        | some head ↦
            (none, if bytes_eq head branch then store s (repo_key url (codes "HEAD")) repo else s)
      ]
    ]

unfoldable pub enter_fresh : Repos → RepoUrl → Bytes → Bytes → Repos
unfolding store
enter_fresh s url user branch =
    let repo = suc (length s.clones) in
    store
      (record s {
        clones = (clone_url url user, branch) ∷ s.clones;
        branch_names = insert repo branch s.branch_names;
      })
      (repo_key url branch) repo

unfoldable pub enter_named : Repos → RepoUrl → Bytes → ℕ → Repos
unfolding store
enter_named s url head repo =
    store (record s { branch_names = insert repo head s.branch_names }) (repo_key url head) repo

-- A new clone is entered; one of `HEAD` under the name of its branch too.
unfoldable pub enter_clone :
    Repos → RepoUrl → Bytes → Bytes → Option Bytes → Option RepoError × Repos × ℕ
unfolding store_head enter_fresh enter_named
enter_clone s url user branch remote_head =
    let repo = suc (length s.clones) in
    let kept = enter_fresh s url user branch in
    let named : Bytes → Repos = λ head. enter_named kept url head repo in
    let failed : Option RepoError × Repos × ℕ = (some no_remote_head, kept, repo) in
    if bytes_eq branch (codes "HEAD")
    then (elim remote_head [
      | none ↦ failed
      | some head ↦ let (e, s') = store_head (named head) url head repo (some head) in (e, s', repo)
    ])
    else (let (e, s') = store_head kept url branch repo remote_head in (e, s', repo))

-- `strings.TrimSpace(branchName)`, or `HEAD`
unfoldable pub branch_of : Bytes → Bytes
branch_of branch_name =
    let trimmed = trim_space branch_name in if is_empty trimmed then codes "HEAD" else trimmed

-- `user` is the VCS client's; whether `Clone` succeeds and what `GetRemoteHead` answers are given.
module _ (url_parse giturls_parse : Bytes → Option Url) (user : Bytes) where
  unfoldable pub get_repo :
      Repos → Bytes → Bytes → Bool → Option Bytes → (Option RepoError × Option ℕ) × Repos
  unfolding enter_clone branch_of
  get_repo s url branch_name is_cloned remote_head =
      elim (canonicalize url_parse giturls_parse url) [
        | none ↦ ((some bad_url, none), s)
        | some parsed ↦ elim (lookup (repo_key parsed (branch_of branch_name)) s.cloned_repos) [
          | some repo ↦ ((none, some repo), s)
          | none ↦
              let (e, s', repo) = enter_clone s parsed user (branch_of branch_name) remote_head in
              if is_cloned then ((e, some repo), s') else ((some not_cloned, none), s)
        ]
      ]

lookup-store :
    (s : Repos) (key other : Bytes) (repo : ℕ)
    → lookup other (store s key repo).cloned_repos
      ≡ (if bytes_eq key other then some repo else lookup other s.cloned_repos)
unfolding store
lookup-store s key other repo = lookup-insert key other repo s.cloned_repos

lookup-store_head :
    (s : Repos) (url : RepoUrl) (branch : Bytes) (repo : ℕ) (head : Option Bytes) (key : Bytes)
    → lookup key s.cloned_repos ≡ some repo
    → lookup key (store_head s url branch repo head).1.cloned_repos ≡ some repo
unfolding store_head
lookup-store_head s url branch repo head key h =
    ground (arith, lookup-store s (repo_key url (codes "HEAD")) key repo)

lookup-enter_fresh :
    (s : Repos) (url : RepoUrl) (user branch : Bytes)
    → lookup (repo_key url branch) (enter_fresh s url user branch).cloned_repos
      ≡ some (suc (length s.clones))
unfolding enter_fresh
lookup-enter_fresh s url user branch =
    let key = repo_key url branch in
    let fresh : Repos = record s {
      clones = (clone_url url user, branch) ∷ s.clones;
      branch_names = insert (suc (length s.clones)) branch s.branch_names;
    } in
    ground (arith, lookup-store fresh key key (suc (length s.clones)), bytes_eq_iff key key)

lookup-enter_named :
    (s : Repos) (url : RepoUrl) (head key : Bytes) (repo : ℕ)
    → lookup key s.cloned_repos ≡ some repo
    → lookup key (enter_named s url head repo).cloned_repos ≡ some repo
unfolding enter_named
lookup-enter_named s url head key repo h = ground (
  arith,
  lookup-store (record s { branch_names = insert repo head s.branch_names }) (repo_key url head) key
      repo,
)

lookup-enter_clone :
    (s : Repos) (url : RepoUrl) (user branch : Bytes) (head : Option Bytes)
    → lookup (repo_key url branch) (enter_clone s url user branch head).1.cloned_repos
      ≡ some (suc (length s.clones))
unfolding enter_clone
lookup-enter_clone s url user branch head =
    let repo = suc (length s.clones) in
    let kept = enter_fresh s url user branch in
    let key = repo_key url branch in
    let there = lookup-enter_fresh s url user branch in
    elim (Bool-cases (bytes_eq branch (codes "HEAD"))) [
      | inr other ↦ rw other (lookup-store_head kept url branch repo head key there)
      | inl default ↦ elim (Option-cases head) [
        | inl n ↦ rw (default, n) there
        | inr (h, e) ↦
            rw (default, e)
              (lookup-store_head (enter_named kept url h repo) url h repo (some h) key
                (lookup-enter_named kept url h key repo there))
      ]
    ]

repo-enter_clone :
    (s : Repos) (url : RepoUrl) (user branch : Bytes) (head : Option Bytes)
    → (enter_clone s url user branch head).2 ≡ suc (length s.clones)
unfolding enter_clone
repo-enter_clone s url user branch head = ground arith

-- Once `getRepo` has cloned a repository for a branch, also when it fails behind the clone, a second
-- call returns that clone and changes nothing: the repository is not cloned again.
get_repo-again :
    (url_parse giturls_parse : Bytes → Option Url) (user : Bytes) (s s' : Repos)
    (url branch : Bytes) (is_cloned : Bool) (head head' : Option Bytes) (is_cloned' : Bool)
    (e : Option RepoError) (repo : ℕ)
    → get_repo url_parse giturls_parse user s url branch is_cloned head ≡ ((e, some repo), s')
    → get_repo url_parse giturls_parse user s' url branch is_cloned' head' ≡ ((none, some repo), s')
unfolding get_repo
get_repo-again url_parse giturls_parse user s s' url branch is_cloned head head' is_cloned' e repo
      h =
    elim (Option-cases (canonicalize url_parse giturls_parse url)) [
      | inl n ↦ absurd (ground arith)
      | inr (parsed, c) ↦
          let key = repo_key parsed (branch_of branch) in
          elim (Option-cases (lookup key s.cloned_repos)) [
            | inr (old, l) ↦
                let same : s' ≡ s = ground arith in
                let id : repo ≡ old = ground arith in
                ground (arith, ap (λ (t : Repos). lookup key t.cloned_repos) same)
            | inl l ↦
                let same : s' ≡ (enter_clone s parsed user (branch_of branch) head).1 =
                  ground arith in
                let id : repo ≡ (enter_clone s parsed user (branch_of branch) head).2 =
                  ground arith in
                ground (
                  arith,
                  ap (λ (t : Repos). lookup key t.cloned_repos) same,
                  lookup-enter_clone s parsed user (branch_of branch) head,
                  repo-enter_clone s parsed user (branch_of branch) head,
                )
          ]
    ]
