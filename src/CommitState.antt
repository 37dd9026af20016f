-- ===== src/CommitState.antt =====
-- pkg/commitState.go: the states of a commit, a `uint8` whose order is the order of severity.
use kubechecks.Common.{
  ℕ, suc, ◌≤◌, max, min, Bytes, codes, bytes_eq, Option, none, some, ◌≡◌, ◌⊎◌, [], ◌∷◌, arith, leb,
  ◌==◌, if◌then◌else◌, has_prefix, zero, ◌&&◌, ◌||◌, ◌+◌,
}

-- A value of a `uint8`; the constants below are the states with a name.
abbrev pub CommitState : Type 0
CommitState = ℕ

abbrev pub state_none : CommitState
state_none = 0

abbrev pub state_skip : CommitState
state_skip = 1

abbrev pub state_success : CommitState
state_success = 2

abbrev pub state_running : CommitState
state_running = 3

abbrev pub state_warning : CommitState
state_warning = 4

abbrev pub state_failure : CommitState
state_failure = 5

abbrev pub state_error : CommitState
state_error = 6

abbrev pub state_panic : CommitState
state_panic = 7

-- A state without an entry in `stateString` is `defaultString`.
unfoldable pub bare_string : CommitState → Bytes
bare_string s =
    if s == state_none
    then []
    else if s == state_skip
    then codes "Skipped"
    else if s == state_success
    then codes "Passed"
    else if s == state_running
    then codes "Running"
    else if s == state_warning
    then codes "Warning"
    else if s == state_failure
    then codes "Failed"
    else if s == state_error
    then codes "Error"
    else if s == state_panic
    then codes "Panic"
    else codes "Unknown"

unfoldable pub worst_state : CommitState → CommitState → CommitState
worst_state l1 l2 = max l1 l2

unfoldable pub best_state : CommitState → CommitState → CommitState
best_state l1 l2 = min l1 l2

lower_ascii : ℕ → ℕ
lower_ascii c = if leb b'A' c && leb c b'Z' then c + 32 else c

-- What stands for the character at the head of a text, and how many more bytes it takes. Outside
-- ASCII only U+0130 and the Kelvin sign have an ASCII lower case; the others are left as they are,
-- since the texts that are compared with are ASCII.
lower_head : ℕ → Bytes → ℕ × ℕ
unfolding lower_ascii
lower_head c s =
    if has_prefix (c ∷ s) (0xc4 ∷ 0xb0 ∷ [])
    then (b'i', 1)
    else if has_prefix (c ∷ s) (0xe2 ∷ 0x84 ∷ 0xaa ∷ [])
    then (b'k', 2)
    else (lower_ascii c, 0)

-- The first argument counts the bytes to skip.
lower_from : ℕ → Bytes → Bytes
unfolding lower_head
lower_from k [] = []
lower_from zero (c ∷ s) = let (d, k) = lower_head c s in d ∷ lower_from k s
lower_from (suc k) (c ∷ s) = lower_from k s

-- `strings.ToLower`
unfoldable pub to_lower : Bytes → Bytes
unfolding lower_from
to_lower s = lower_from 0 s

-- `none` is the error "unknown commit state"
unfoldable pub parse_commit_state : Bytes → Option CommitState
unfolding to_lower
parse_commit_state text =
    let s = to_lower text in
    if bytes_eq s (codes "success")
    then some state_success
    else if bytes_eq s (codes "running")
    then some state_running
    else if bytes_eq s (codes "warning")
    then some state_warning
    else if bytes_eq s (codes "failure")
    then some state_failure
    else if bytes_eq s (codes "error")
    then some state_error
    else if bytes_eq s (codes "panic")
    then some state_panic
    else if bytes_eq s (codes "skip") || bytes_eq s (codes "skipped")
    then some state_skip
    else none

pub worst_state_lub :
    (a b c : CommitState)
    → (a ≤ worst_state a b)
      × (b ≤ worst_state a b)
      × (a ≤ c → b ≤ c → worst_state a b ≤ c)
      × ((worst_state a b ≡ a) ⊎ (worst_state a b ≡ b))
unfolding worst_state
worst_state_lub a b c = (omega arith, omega arith, (λ p q. omega arith), omega arith)
