-- ===== src/RepoUrl.antt =====
-- pkg/repoUrl.go: the host and path by which repositories are compared. The two URL parsers are not
-- the program's own (net/url and git-urls), and are parameters.
use kubechecks.Common.{
  Bytes, Bool, true, false, ◌&&◌, Option, none, some, List, ◌++◌, ◌≡◌, codes, bytes_eq,
  bytes_eq_iff, has_prefix, if◌then◌else◌, is_empty, length, drop, reverse, arith, ◌↔◌,
  Option-cases, inl, inr,
}

-- What the program reads of a parsed `url.URL`.
pub record Url : Type 0 where
  pub host : Bytes
  pub path : Bytes
  pub query : List (Bytes × Bytes)

pub record RepoUrl : Type 0 where
  pub host : Bytes
  pub path : Bytes

-- `strings.TrimPrefix(s, p)`
unfoldable pub trim_prefix : Bytes → Bytes → Bytes
trim_prefix s p = if has_prefix s p then drop (length p) s else s

-- `strings.TrimSuffix(s, p)`
unfoldable pub trim_suffix : Bytes → Bytes → Bytes
unfolding trim_prefix
trim_suffix s p = reverse (trim_prefix (reverse s) (reverse p))

unfoldable pub clone_url : RepoUrl → Bytes → Bytes
clone_url r username =
    if is_empty username
    then codes "https://" ++ (r.host ++ (codes "/" ++ r.path))
    else codes "https://" ++ (username ++ (codes "@" ++ (r.host ++ (codes "/" ++ r.path))))

module _ (url_parse giturls_parse : Bytes → Option Url) where
  unfoldable pub normalize_repo_url : Bytes → Option (RepoUrl × List (Bytes × Bytes))
  unfolding trim_prefix trim_suffix
  normalize_repo_url s =
      let parsed = if has_prefix s (codes "http") then url_parse s else giturls_parse s in
      elim parsed [
        | none ↦ none
        | some r ↦ some (
          record {
            host = r.host;
            path = trim_suffix (trim_prefix r.path (codes "/")) (codes ".git");
          },
          r.query,
        )
      ]

  unfoldable pub canonicalize : Bytes → Option RepoUrl
  canonicalize url = elim (normalize_repo_url url) [ none ↦ none | some (repo, query) ↦ some repo ]

  -- A URL that does not parse is the same as none, not even itself.
  unfoldable pub are_same_repos : Bytes → Bytes → Bool
  are_same_repos url1 url2 = elim (canonicalize url1) [
    | none ↦ false
    | some repo1 ↦ elim (canonicalize url2) [
      | none ↦ false
      | some repo2 ↦ bytes_eq repo1.host repo2.host && bytes_eq repo1.path repo2.path
    ]
  ]

  -- Two URLs are of the same repository exactly when both parse, to the same host and path.
  pub are_same_repos_iff :
      (url1 url2 : Bytes)
      → (are_same_repos url1 url2 ≡ true)
        ↔ ((repo : RepoUrl) × (canonicalize url1 ≡ some repo) × (canonicalize url2 ≡ some repo))
  unfolding are_same_repos
  are_same_repos_iff url1 url2 = (forth, back)
    where
      forth :
          are_same_repos url1 url2 ≡ true
          → (repo : RepoUrl) × (canonicalize url1 ≡ some repo) × (canonicalize url2 ≡ some repo)
      forth h = elim (Option-cases (canonicalize url1)) [
        | inl e ↦ let no : ⊥ = ground (arith, e) in absurd no
        | inr (r1, e1) ↦ elim (Option-cases (canonicalize url2)) [
          | inl e ↦ let no : ⊥ = ground (arith, e, e1) in absurd no
          | inr (r2, e2) ↦ (
            r1,
            e1,
            ground (arith, e1, e2, bytes_eq_iff r1.host r2.host, bytes_eq_iff r1.path r2.path),
          )
        ]
      ]

      back :
          ((repo : RepoUrl) × (canonicalize url1 ≡ some repo) × (canonicalize url2 ≡ some repo))
          → are_same_repos url1 url2 ≡ true
      back (r, e1, e2) =
          ground (arith, e1, e2, bytes_eq_iff r.host r.host, bytes_eq_iff r.path r.path)
