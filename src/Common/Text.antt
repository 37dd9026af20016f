-- ===== src/Common/Text.antt =====
-- Texts as lists of bytes, and what the program uses of Go's `strings`, `strconv` and `utf8`.
use Prim.Native.Nat.{ℕ, zero, suc, ◌+◌, ◌/◌, ◌%◌, ◌^◌, ◌≤◌, ◌<◌}
use Prim.Native.Char.{code}
use Prim.Native.String.{String}
use mathlib.Core.Path.{◌≡◌, refl}
use mathlib.Core.Bool.{Bool, true, false, ◌&&◌, ◌||◌}
use mathlib.Core.Option.{Option, none, some}
use mathlib.Core.List.{List, [], ◌∷◌, ◌++◌, map, reverse}
use native.Mathlib.Omega.{arith}
use native.Mathlib.Nat.{pow-suc}
use kubechecks.Common.Tests.{◌==◌, ltb, if◌then◌else◌}
use kubechecks.Common.Lists.{length, drop, concat}

abbrev pub Bytes : Type 0
Bytes = List ℕ

-- The bytes of an ASCII literal.
abbrev pub codes : String → Bytes
codes String.[] = []
codes (String.◌∷◌ c s) = code c ∷ codes s

abbrev pub newline : ℕ
newline = b'\n'

-- `strings.HasPrefix(s, p)`
abbrev pub has_prefix : Bytes → Bytes → Bool
has_prefix s [] = true
has_prefix [] (b ∷ p) = false
has_prefix (a ∷ s) (b ∷ p) = a == b && has_prefix s p

-- `strings.Contains(s, p)`
abbrev pub contains : Bytes → Bytes → Bool
contains [] p = has_prefix [] p
contains (a ∷ s) p = has_prefix (a ∷ s) p || contains s p

-- `strings.TrimLeft(s, c)` for a cutset of one byte
unfoldable pub trim_left : ℕ → Bytes → Bytes
trim_left c [] = []
trim_left c (a ∷ s) = let rest = trim_left c s in if a == c then rest else a ∷ s

-- The white space of `unicode.IsSpace` in UTF-8.
unfoldable pub spaces : List Bytes
spaces =
    (9 ∷ [])
    ∷ (10 ∷ [])
    ∷ (11 ∷ [])
    ∷ (12 ∷ [])
    ∷ (13 ∷ [])
    ∷ (32 ∷ [])
    ∷ (0xc2 ∷ 0x85 ∷ [])
    ∷ (0xc2 ∷ 0xa0 ∷ [])
    ∷ (0xe1 ∷ 0x9a ∷ 0x80 ∷ [])
    ∷ (0xe2 ∷ 0x80 ∷ 0x80 ∷ [])
    ∷ (0xe2 ∷ 0x80 ∷ 0x81 ∷ [])
    ∷ (0xe2 ∷ 0x80 ∷ 0x82 ∷ [])
    ∷ (0xe2 ∷ 0x80 ∷ 0x83 ∷ [])
    ∷ (0xe2 ∷ 0x80 ∷ 0x84 ∷ [])
    ∷ (0xe2 ∷ 0x80 ∷ 0x85 ∷ [])
    ∷ (0xe2 ∷ 0x80 ∷ 0x86 ∷ [])
    ∷ (0xe2 ∷ 0x80 ∷ 0x87 ∷ [])
    ∷ (0xe2 ∷ 0x80 ∷ 0x88 ∷ [])
    ∷ (0xe2 ∷ 0x80 ∷ 0x89 ∷ [])
    ∷ (0xe2 ∷ 0x80 ∷ 0x8a ∷ [])
    ∷ (0xe2 ∷ 0x80 ∷ 0xa8 ∷ [])
    ∷ (0xe2 ∷ 0x80 ∷ 0xa9 ∷ [])
    ∷ (0xe2 ∷ 0x80 ∷ 0xaf ∷ [])
    ∷ (0xe2 ∷ 0x81 ∷ 0x9f ∷ [])
    ∷ (0xe3 ∷ 0x80 ∷ 0x80 ∷ [])
    ∷ []

-- What stands behind the first of the sequences that the text begins with.
unfoldable pub strip_any : List Bytes → Bytes → Option Bytes
strip_any [] s = none
strip_any (p ∷ ps) s = if has_prefix s p then some (drop (length p) s) else strip_any ps s

unfoldable pub trim_seqs : ℕ → List Bytes → Bytes → Bytes
trim_seqs zero ps s = s
trim_seqs (suc n) ps s = elim (strip_any ps s) [ none ↦ s | some rest ↦ trim_seqs n ps rest ]

-- `strings.TrimSpace(s)`; no sequence is empty, so as many rounds as bytes are enough
unfoldable pub trim_space : Bytes → Bytes
unfolding trim_seqs strip_any spaces
trim_space s =
    let left = trim_seqs (length s) spaces s in
    reverse (trim_seqs (length s) (map reverse spaces) (reverse left))

-- `strings.Cut(s, sep)` for a separator that is not empty
unfoldable pub cut : Bytes → Bytes → Option (Bytes × Bytes)
cut [] sep = none
cut (a ∷ s) sep =
    let later : Option (Bytes × Bytes) = elim (cut s sep) [
      | none ↦ none
      | some (before, after) ↦ some (a ∷ before, after)
    ] in
    if has_prefix (a ∷ s) sep then some ([], drop (length sep) (a ∷ s)) else later

-- A byte put in front of the first line.
abbrev pub cons_head : ℕ → List Bytes → List Bytes
cons_head c [] = (c ∷ []) ∷ []
cons_head c (l ∷ ls) = (c ∷ l) ∷ ls

-- `strings.SplitAfter(s, "\n")`
unfoldable pub split_after : Bytes → List Bytes
split_after [] = [] ∷ []
split_after (c ∷ s) =
    let rest = split_after s in if c == newline then (c ∷ []) ∷ rest else cons_head c rest

-- `strings.Join(parts, sep)`
abbrev pub join : List Bytes → Bytes → Bytes
join [] sep = []
join (p ∷ []) sep = p
join (p ∷ q ∷ ps) sep = p ++ (sep ++ join (q ∷ ps) sep)

unfoldable pub digits : ℕ → ℕ → Bytes → Bytes
digits zero n out = out
digits (suc fuel) n out =
    let out' = (b'0' + n % 10) ∷ out in
    let more = digits fuel (n / 10) out' in if ltb n 10 then out' else more

-- `%d` of a number; it has at most as many digits as its value plus one
unfoldable pub itoa : ℕ → Bytes
unfolding digits
itoa n = digits (suc n) n []

concat-cons_head : (c : ℕ) (ls : List Bytes) → concat (cons_head c ls) ≡ c ∷ concat ls
concat-cons_head c [] = refl
concat-cons_head c (l ∷ ls) = refl

-- The lines of a text spell the text.
pub concat-split_after : (s : Bytes) → concat (split_after s) ≡ s
unfolding split_after
concat-split_after [] = refl
concat-split_after (c ∷ s) =
    ground (arith, concat-split_after s, concat-cons_head c (split_after s))

length-digits :
    (k fuel n : ℕ) (out : Bytes) → n < 10 ^ suc k → length (digits fuel n out) ≤ suc k + length out
unfolding digits
length-digits k zero n out h = omega arith
length-digits zero (suc fuel) n out h = ground (arith, pow-suc 10 zero)
length-digits (suc k) (suc fuel) n out h =
    ground (arith, pow-suc 10 (suc k), length-digits k fuel (n / 10) ((b'0' + n % 10) ∷ out))

-- A number below 1000 takes at most three digits.
pub length-itoa_3 : (n : ℕ) → n < 1000 → length (itoa n) ≤ 3
unfolding itoa
length-itoa_3 n h = omega (arith, length-digits 2 (suc n) n [] h)
