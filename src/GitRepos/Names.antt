-- ===== src/GitRepos/Names.antt =====
-- pkg/git/repo.go: `sanitizeBranchName` and `isHexString`.
pub mod Clean
use kubechecks.Common.{
  ℕ, zero, suc, ◌+◌, ◌≤◌, ◌<◌, Bytes, codes, Bool, true, false, ◌&&◌, ◌||◌, not, List, [], ◌∷◌,
  ◌++◌, ◌≡◌, refl, contains, has_prefix, ◌==◌, ltb, leb, if◌then◌else◌, length, reverse, trim_left,
  arith,
}

unfoldable pub is_hex_byte : ℕ → Bool
is_hex_byte c =
    (leb b'0' c && leb c b'9') || (leb b'a' c && leb c b'f') || (leb b'A' c && leb c b'F')

abbrev pub all_hex : Bytes → Bool
unfolding is_hex_byte
all_hex [] = true
all_hex (c ∷ s) = is_hex_byte c && all_hex s

unfoldable pub is_hex_string : Bytes → Bool
is_hex_string s = if ltb (length s) 7 then false else all_hex s

-- The characters that the replacer turns into a hyphen.
unfoldable pub is_invalid : ℕ → Bool
is_invalid c =
    c == b' '
    || c == b'/'
    || c == b'\\'
    || c == b':'
    || c == b'~'
    || c == b'^'
    || c == b'?'
    || c == b'*'
    || c == b'['
    || c == b']'

unfoldable pub replace_invalid : Bytes → Bytes
unfolding is_invalid
replace_invalid [] = []
replace_invalid (c ∷ s) = (if is_invalid c then b'-' else c) ∷ replace_invalid s

-- `strings.ReplaceAll(s, "--", "-")`; the first argument says whether the byte before is a hyphen
-- that waits for its pair.
unfoldable pub pair_hyphens : Bool → Bytes → Bytes
pair_hyphens waits [] = if waits then b'-' ∷ [] else []
pair_hyphens true (c ∷ s) =
    let paired = pair_hyphens false s in if c == b'-' then b'-' ∷ paired else b'-' ∷ c ∷ paired
pair_hyphens false (c ∷ s) =
    let opened = pair_hyphens true s in
    let passed = pair_hyphens false s in if c == b'-' then opened else c ∷ passed

-- The loop that removes consecutive hyphens.
unfoldable pub collapse : ℕ → Bytes → Bytes
unfolding pair_hyphens
collapse zero s = s
collapse (suc n) s =
    let more = collapse n (pair_hyphens false s) in if contains s (codes "--") then more else s

-- `strings.Trim(s, "-")`
unfoldable pub trim_hyphens : Bytes → Bytes
trim_hyphens s = reverse (trim_left b'-' (reverse (trim_left b'-' s)))

-- `sanitizeBranchName`; a round takes a byte at least, so as many rounds as bytes are enough
unfoldable pub sanitize_branch_name : Bytes → Bytes
unfolding replace_invalid collapse trim_hyphens
sanitize_branch_name name = let s = replace_invalid name in trim_hyphens (collapse (length s) s)
