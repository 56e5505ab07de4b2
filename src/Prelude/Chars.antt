-- ===== src/Prelude/Chars.antt =====
-- Methods of `char` and `str` of the Rust standard library that validation and matching use.
use Prim.Native.Nat.{ℕ, ◌+◌, ◌-◌}
use mathlib.Core.Path.{◌≡◌, refl}
use mathlib.Core.Logic.{◌↔◌}
use mathlib.Core.Bool.{Bool, true, false, ◌&&◌, ◌||◌}
use mathlib.Core.List.{List, [], ◌∷◌, ◌++◌, reverse}
use mathlib.Core.Option.{Option, none, some}
use native.Mathlib.Omega.{arith}
use mayfly_server.Prelude.Tests.{ltb, leb, ◌==◌, if◌then◌else◌}
use mayfly_server.Prelude.Text.{Str}

-- `char::is_whitespace`: the Unicode property White_Space.
unfoldable pub is_whitespace : ℕ → Bool
is_whitespace c =
    (leb 9 c && leb c 13)
    || c == 32
    || c == 0x85
    || c == 0xa0
    || c == 0x1680
    || (leb 0x2000 c && leb c 0x200a)
    || c == 0x2028
    || c == 0x2029
    || c == 0x202f
    || c == 0x205f
    || c == 0x3000

-- `char::is_control`: the Unicode category Cc.
unfoldable pub is_control : ℕ → Bool
is_control c = ltb c 0x20 || (leb 0x7f c && leb c 0x9f)

unfoldable pub is_ascii_alphanumeric : ℕ → Bool
is_ascii_alphanumeric c =
    (leb b'0' c && leb c b'9') || (leb b'A' c && leb c b'Z') || (leb b'a' c && leb c b'z')

unfoldable pub to_ascii_lowercase : ℕ → ℕ
to_ascii_lowercase c = if leb b'A' c && leb c b'Z' then c + 32 else c

unfoldable pub to_ascii_uppercase : Str → Str
to_ascii_uppercase [] = []
to_ascii_uppercase (c ∷ s) = (if leb b'a' c && leb c b'z' then c - 32 else c) ∷ to_ascii_uppercase s

unfoldable pub eq_ignore_ascii_case : Str → Str → Bool
unfolding to_ascii_lowercase
eq_ignore_ascii_case [] [] = true
eq_ignore_ascii_case [] (b ∷ t) = false
eq_ignore_ascii_case (a ∷ s) [] = false
eq_ignore_ascii_case (a ∷ s) (b ∷ t) =
    to_ascii_lowercase a == to_ascii_lowercase b && eq_ignore_ascii_case s t

trim_start : Str → Str
trim_start [] = []
trim_start (c ∷ s) = if is_whitespace c then trim_start s else c ∷ s

unfoldable pub trim : Str → Str
unfolding trim_start is_whitespace
trim s = reverse (trim_start (reverse (trim_start s)))

-- `str::starts_with` and `str::strip_prefix`.
unfoldable pub strip_prefix : Str → Str → Option Str
strip_prefix s [] = some s
strip_prefix [] (p ∷ ps) = none
strip_prefix (c ∷ s) (p ∷ ps) = if c == p then strip_prefix s ps else none

-- `str::split_once` on one character.
unfoldable pub split_once : ℕ → Str → Option (Str × Str)
split_once sep [] = none
split_once sep (c ∷ s) =
    let rest = split_once sep s in
    if c == sep then some ([], s) else elim rest [ none ↦ none | some (a, b) ↦ some (c ∷ a, b) ]

-- `str::split` on one character: always at least one part.
split_from : ℕ → Str → Str × List Str
split_from sep [] = ([], [])
split_from sep (c ∷ s) =
    let (part, rest) = split_from sep s in if c == sep then ([], part ∷ rest) else (c ∷ part, rest)

unfoldable pub split : ℕ → Str → List Str
unfolding split_from
split sep s = let (part, rest) = split_from sep s in part ∷ rest

pub eq_ignore_ascii_case_refl : (s : Str) → eq_ignore_ascii_case s s ≡ true
unfolding eq_ignore_ascii_case
eq_ignore_ascii_case_refl [] = refl
eq_ignore_ascii_case_refl (c ∷ s) = ground (arith, eq_ignore_ascii_case_refl s)

pub eq_ignore_ascii_case_comm : (s t : Str) → eq_ignore_ascii_case s t ≡ eq_ignore_ascii_case t s
unfolding eq_ignore_ascii_case
eq_ignore_ascii_case_comm [] [] = refl
eq_ignore_ascii_case_comm [] (d ∷ t) = refl
eq_ignore_ascii_case_comm (c ∷ s) [] = refl
eq_ignore_ascii_case_comm (c ∷ s) (d ∷ t) = ground (arith, eq_ignore_ascii_case_comm s t)

unfoldable pub starts_with : Str → Str → Bool
starts_with s [] = true
starts_with [] (p ∷ ps) = false
starts_with (c ∷ s) (p ∷ ps) = c == p && starts_with s ps

pub starts_with_iff : (s p : Str) → (starts_with s p ≡ true) ↔ ((rest : Str) × (s ≡ p ++ rest))
unfolding starts_with
starts_with_iff s [] = (λ h. (s, refl), λ r. refl)
starts_with_iff [] (p ∷ ps) = (λ h. absurd (ground arith), λ (rest, e). absurd (ground arith))
starts_with_iff (c ∷ s) (p ∷ ps) =
    let (to, from) = starts_with_iff s ps in
    (
      λ h. let (rest, e) = to (ground arith) in (rest, ground (arith, e)),
      λ (rest, e). ground (arith, from (rest, ground arith)),
    )

-- `str::contains` of a text.
unfoldable pub contains : Str → Str → Bool
unfolding starts_with
contains [] p = starts_with [] p
contains (c ∷ s) p = starts_with (c ∷ s) p || contains s p
