-- ===== src/Archive/Manager/Validated.antt =====
-- pkg/archive/manager.go: the URL that a validation finds is used once, by the check of its request.
use kubechecks.Common.{
  Bytes, codes, itoa, List, [], ◌∷◌, ◌++◌, none, some, lookup, insert, delete, lookup-insert,
  lookup-delete, bytes_eq, bytes_instance, if◌then◌else◌, ◌≡◌, refl, sym, ap, ◌∙◌, arith, All,
  itoa-IsDigit, itoa_injective, beq_refl, ◌≤◌,
}
use kubechecks.Archive.Urls.{before}
use kubechecks.Archive.Urls.Parts.{Without, before-append}
use kubechecks.Archive.Manager.{
  Manager, PullRequest, Answer, archive_at, Calls, validated_key, validate_pull_request,
  archive_url, clone, clone_from,
}

-- The answer of the VCS client replaced.
abbrev pub answering : Calls → Bytes → Calls
answering calls url = record calls { download_archive = archive_at url }

-- A stored URL is answered, and deleted.
archive_url_stored :
    (m : Manager) (pr : PullRequest) (url : Bytes) (answer : Answer)
    → lookup (validated_key pr) m.validated_urls ≡ some url
    → archive_url m pr answer
      ≡ (archive_at url, record m { validated_urls = delete (validated_key pr) m.validated_urls })
unfolding archive_url
archive_url_stored m pr url answer h = rw (archive_url, h) refl

clone-stored :
    (m : Manager) (clone_url branch : Bytes) (pr : PullRequest) (url : Bytes) (calls : Calls)
    → lookup (validated_key pr) m.validated_urls ≡ some url
    → clone m clone_url branch pr calls
      ≡ clone_from
          (record m { validated_urls = delete (validated_key pr) m.validated_urls })
          clone_url
          branch
          url
          calls
unfolding clone
clone-stored m clone_url branch pr url calls h =
    let e = archive_url_stored m pr url calls.download_archive h in
    rw (clone, ap (λ r. r.0) e, ap (λ r. r.1) e) refl

validated_urls-clone_from :
    (m : Manager) (clone_url branch url : Bytes) (calls : Calls)
    → (clone_from m clone_url branch url calls).1.validated_urls ≡ m.validated_urls
unfolding clone_from
validated_urls-clone_from m clone_url branch url calls = ground arith

outcome-clone_from :
    (m : Manager) (urls : List (Bytes × Bytes)) (clone_url branch url : Bytes) (calls : Calls)
    → (clone_from (record m { validated_urls = urls }) clone_url branch url calls).0
      ≡ (clone_from m clone_url branch url calls).0
unfolding clone_from
outcome-clone_from m urls clone_url branch url calls = ground arith

before-validated_key :
    (pr : PullRequest) → Without b'#' pr.full_name → before b'#' (validated_key pr) ≡ pr.full_name
unfolding validated_key
before-validated_key pr h =
    before-append b'#' pr.full_name (itoa pr.check_id ++ (codes "@" ++ pr.sha)) h

append_cancel : (s t r : Bytes) → s ++ t ≡ s ++ r → t ≡ r
append_cancel [] t r h = h
append_cancel (a ∷ s) t r h = append_cancel s t r (ground arith)

digits_no_at : (s : Bytes) → All (λ b. (b'0' ≤ b) × (b ≤ b'9')) s → Without b'@' s
digits_no_at [] h = tt
digits_no_at (b ∷ s) ((low, high), h) = ((λ e. omega arith), digits_no_at s h)

-- The keys of two pull requests are the same only if they agree in repository, number and commit.
pub validated_key_injective :
    (p q : PullRequest)
    → Without b'#' p.full_name
    → Without b'#' q.full_name
    → validated_key p ≡ validated_key q
    → (p.full_name ≡ q.full_name) × (p.check_id ≡ q.check_id) × (p.sha ≡ q.sha)
unfolding validated_key
validated_key_injective p q hp hq h =
    let names : p.full_name ≡ q.full_name =
      sym (before-validated_key p hp) ∙ ap (before b'#') h ∙ before-validated_key q hq in
    let rest : codes "#" ++ (itoa p.check_id ++ (codes "@" ++ p.sha))
        ≡ codes "#" ++ (itoa q.check_id ++ (codes "@" ++ q.sha)) =
      append_cancel q.full_name _ _
        (ap (λ t. t ++ (codes "#" ++ (itoa p.check_id ++ (codes "@" ++ p.sha)))) (sym names) ∙ h) in
    let tails = append_cancel (codes "#") _ _ rest in
    let numbers : itoa p.check_id ≡ itoa q.check_id =
      sym (
        before-append b'@' (itoa p.check_id) p.sha
          (digits_no_at (itoa p.check_id) (itoa-IsDigit p.check_id)))
      ∙ ap (before b'@') tails
      ∙ before-append b'@' (itoa q.check_id) q.sha
          (digits_no_at (itoa q.check_id) (itoa-IsDigit q.check_id)) in
    let shas =
      append_cancel (itoa q.check_id) _ _
        (ap (λ t. t ++ (codes "@" ++ p.sha)) (sym numbers) ∙ tails) in
    (names, itoa_injective p.check_id q.check_id numbers, append_cancel (codes "@") _ _ shas)

-- A check that follows the validation of its pull request gets the archive at the URL that the
-- validation found, whatever the VCS client would answer now; that URL is gone then, and the URLs
-- under all other keys are as before.
pub clone-validate_pull_request :
    (m : Manager) (pr : PullRequest) (url clone_url branch key : Bytes) (calls : Calls)
    → let validated = (validate_pull_request m pr (archive_at url)).1 in
      let used = clone validated clone_url branch pr calls in
      (used.0 ≡ (clone_from m clone_url branch url calls).0)
      × (lookup key used.1.validated_urls
          ≡ (if bytes_eq (validated_key pr) key then none else lookup key m.validated_urls))
unfolding validate_pull_request
clone-validate_pull_request m pr url clone_url branch key calls =
    let mine = validated_key pr in
    let stored = insert mine url m.validated_urls in
    let found : lookup mine stored ≡ some url =
      lookup-insert mine mine url m.validated_urls ∙ rw (beq_refl mine) refl in
    let run =
      clone-stored (record m { validated_urls = stored }) clone_url branch pr url calls found in
    let left = record m { validated_urls = delete mine stored } in
    (
      ap (λ r. r.0) run ∙ outcome-clone_from m (delete mine stored) clone_url branch url calls,
      ap (λ r. lookup key r.1.validated_urls) run
          ∙ ap (lookup key) (validated_urls-clone_from left clone_url branch url calls)
          ∙ ground
              (arith, lookup-delete mine key stored, lookup-insert mine key url m.validated_urls),
    )
