-- ===== src/Prelude/Text.antt =====
-- Rust strings as lists of Unicode scalar values, with the methods of `str` and `char` used here.
use Prim.Native.Nat.{ℕ, ◌+◌, ◌/◌, ◌%◌}
use Prim.Native.Char.{code}
use Prim.Native.String.{String}
use mathlib.Core.Path.{◌≡◌, refl, sym}
use mathlib.Core.Logic.{◌↔◌}
use mathlib.Core.Bool.{Bool, true, false, ◌&&◌}
use mathlib.Core.List.{List, [], ◌∷◌, ◌++◌}
use native.Mathlib.Omega.{arith}
use mayfly_server.Prelude.Tests.{ltb, not, ◌==◌, if◌then◌else◌}
use mayfly_server.Prelude.Lists.{length, all, cons-injective}

abbrev pub Str : Type 0
Str = List ℕ

-- A literal of the source.
abbrev pub lit : String → Str
lit String.[] = []
lit (String.◌∷◌ c s) = code c ∷ lit s

-- `==` on strings and on byte slices.
unfoldable pub text_eq : Str → Str → Bool
text_eq [] [] = true
text_eq [] (b ∷ bs) = false
text_eq (a ∷ as') [] = false
text_eq (a ∷ as') (b ∷ bs) = a == b && text_eq as' bs

pub text_eq_iff : (s t : Str) → (text_eq s t ≡ true) ↔ (s ≡ t)
unfolding text_eq
text_eq_iff [] [] = ground arith
text_eq_iff [] (b ∷ bs) = ground arith
text_eq_iff (a ∷ as') [] = ground arith
text_eq_iff (a ∷ as') (b ∷ bs) = ground (arith, text_eq_iff as' bs)

pub text_eq_refl : (s : Str) → text_eq s s ≡ true
text_eq_refl s = (text_eq_iff s s).1 refl

abbrev pub is_empty : Str → Bool
is_empty [] = true
is_empty (c ∷ s) = false

-- The UTF-8 bytes of a scalar value.
unfoldable pub utf8 : ℕ → List ℕ
utf8 c =
    if ltb c 0x80
    then c ∷ []
    else if ltb c 0x800
    then (192 + c / 64) ∷ (128 + c % 64) ∷ []
    else if ltb c 0x10000
    then (224 + c / 4096) ∷ (128 + c / 64 % 64) ∷ (128 + c % 64) ∷ []
    else (240 + c / 262144) ∷ (128 + c / 4096 % 64) ∷ (128 + c / 64 % 64) ∷ (128 + c % 64) ∷ []

unfoldable pub as_bytes : Str → List ℕ
unfolding utf8
as_bytes [] = []
as_bytes (c ∷ s) = utf8 c ++ as_bytes s

-- `str::len` counts bytes.
unfoldable pub len : Str → ℕ
unfolding as_bytes
len s = length (as_bytes s)

utf8_prefix : (c d : ℕ) (r s : List ℕ) → utf8 c ++ r ≡ utf8 d ++ s → (c ≡ d) × (r ≡ s)
unfolding utf8
utf8_prefix c d r s h = ground arith

utf8-append-ne-nil : (c : ℕ) (r : List ℕ) → ¬ (utf8 c ++ r ≡ [])
unfolding utf8
utf8-append-ne-nil c r h = ground arith

-- Two strings with the same bytes are the same string.
pub as_bytes-injective : (s t : Str) → as_bytes s ≡ as_bytes t → s ≡ t
unfolding as_bytes
as_bytes-injective [] [] h = refl
as_bytes-injective [] (d ∷ t) h = absurd (utf8-append-ne-nil d (as_bytes t) (sym h))
as_bytes-injective (c ∷ s) [] h = absurd (utf8-append-ne-nil c (as_bytes s) h)
as_bytes-injective (c ∷ s) (d ∷ t) h =
    let p = utf8_prefix c d (as_bytes s) (as_bytes t) h in cc (p.0, as_bytes-injective s t p.1)

-- The character does not occur in the text.
abbrev pub lacks : ℕ → Str → Bool
lacks c s = all (λ d. not (d == c)) s

-- A text ends at the first occurrence of a character that it lacks.
pub separated-injective :
    (c : ℕ) (a b r s : Str)
    → lacks c a ≡ true
    → lacks c b ≡ true
    → a ++ c ∷ r ≡ b ++ c ∷ s
    → (a ≡ b) × (r ≡ s)
separated-injective c [] [] r s ha hb e = (refl, (cons-injective c c r s e).1)
separated-injective c [] (d ∷ b) r s ha hb e =
    let (same, rest) = cons-injective c d r (b ++ c ∷ s) e in ground arith
separated-injective c (d ∷ a) [] r s ha hb e =
    let (same, rest) = cons-injective d c (a ++ c ∷ r) s e in ground arith
separated-injective c (d ∷ a) (f ∷ b) r s ha hb e =
    let (same, rest) = cons-injective d f (a ++ c ∷ r) (b ++ c ∷ s) e in
    let (lines, tails) : (a ≡ b) × (r ≡ s) =
      separated-injective c a b r s (ground arith) (ground arith) rest in
    (cc (same, lines), tails)
