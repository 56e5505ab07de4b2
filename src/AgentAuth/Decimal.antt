-- ===== src/AgentAuth/Decimal.antt =====
-- `Display` and `FromStr` of `i64`, which the canonical string and the timestamp header use.
use mayfly_server.Prelude.{
  lacks, ℕ, zero, suc, ◌+◌, ◌-◌, ◌*◌, ◌/◌, ◌%◌, ◌^◌, ◌≡◌, refl, Str, [], ◌∷◌, ◌++◌, Option, none,
  some, Bool, true, false, ◌&&◌, ◌==◌, ltb, leb, all, arith, if◌then◌else◌, ◌<◌, sym, ap, ◌∙◌,
  Bool-cases, inl, inr,
}
use mayfly_server.Prelude.Int.{ℤ, pos, negsuc}

-- The digits of `n`; a fuel above `n` is enough, since each round divides by ten.
unfoldable pub digits : ℕ → ℕ → Str
digits zero n = []
digits (suc f) n =
    let high = digits f (n / 10) in
    if ltb n 10 then (b'0' + n) ∷ [] else high ++ (b'0' + n % 10) ∷ []

unfoldable pub show_int : ℤ → Str
unfolding digits
show_int (pos n) = digits (suc n) n
show_int (negsuc n) = b'-' ∷ digits (suc (suc n)) (suc n)

parse_digits : ℕ → Str → Option ℕ
parse_digits n [] = some n
parse_digits n (c ∷ s) =
    let rest = parse_digits (n * 10 + (c - b'0')) s in
    if leb b'0' c && leb c b'9' then rest else none

abbrev in_range : Option ℕ → Option ℤ
in_range none = none
in_range (some n) = if ltb n (2 ^ 63) then some (pos n) else none

abbrev in_negative_range : Option ℕ → Option ℤ
in_negative_range none = none
in_negative_range (some zero) = some (pos 0)
in_negative_range (some (suc n)) = if ltb n (2 ^ 63) then some (negsuc n) else none

-- An optional sign and at least one digit; a value out of the range of `i64` is an error.
unfoldable pub parse_i64 : Str → Option ℤ
unfolding parse_digits
parse_i64 [] = none
parse_i64 (c ∷ []) = in_range (parse_digits 0 (c ∷ []))
parse_i64 (c ∷ d ∷ s) =
    if c == b'-'
    then in_negative_range (parse_digits 0 (d ∷ s))
    else if c == b'+'
    then in_range (parse_digits 0 (d ∷ s))
    else in_range (parse_digits 0 (c ∷ d ∷ s))

-- The range of `i64`.
abbrev pub InI64 : ℤ → Type 0
InI64 (pos n) = n < 2 ^ 63
InI64 (negsuc n) = n < 2 ^ 63

in_range-InI64 : (o : Option ℕ) (i : ℤ) → in_range o ≡ some i → InI64 i
in_range-InI64 none i h = absurd (ground arith)
in_range-InI64 (some n) (pos m) h = ground arith
in_range-InI64 (some n) (negsuc m) h = absurd (ground arith)

in_negative_range-InI64 : (o : Option ℕ) (i : ℤ) → in_negative_range o ≡ some i → InI64 i
in_negative_range-InI64 none i h = absurd (ground arith)
in_negative_range-InI64 (some zero) (pos m) h = ground arith
in_negative_range-InI64 (some zero) (negsuc m) h = absurd (ground arith)
in_negative_range-InI64 (some (suc n)) (pos m) h = absurd (ground arith)
in_negative_range-InI64 (some (suc n)) (negsuc m) h = ground arith

-- Only numbers of the range are read.
pub parse_i64-InI64 : (s : Str) (i : ℤ) → parse_i64 s ≡ some i → InI64 i
unfolding parse_i64
parse_i64-InI64 [] i h = absurd (ground arith)
parse_i64-InI64 (c ∷ []) i h = in_range-InI64 (parse_digits 0 (c ∷ [])) i h
parse_i64-InI64 (c ∷ d ∷ s) i h = elim (Bool-cases (c == b'-')) [
  | inl minus ↦ in_negative_range-InI64 (parse_digits 0 (d ∷ s)) i (rw minus at h)
  | inr other ↦ elim (Bool-cases (c == b'+')) [
    | inl plus ↦ in_range-InI64 (parse_digits 0 (d ∷ s)) i (rw (other, plus) at h)
    | inr digit ↦ in_range-InI64 (parse_digits 0 (c ∷ d ∷ s)) i (rw (other, digit) at h)
  ]
]

-- Only ASCII digits.
abbrev pub is_number : Str → Bool
is_number s = all (λ c. leb b'0' c && leb c b'9') s

is_number-snoc :
    (s : Str) (c : ℕ)
    → is_number s ≡ true
    → (leb b'0' c && leb c b'9') ≡ true
    → is_number (s ++ c ∷ []) ≡ true
is_number-snoc [] c h k = ground arith
is_number-snoc (d ∷ s) c h k = ground (arith, is_number-snoc s c)

digits-is_number : (f n : ℕ) → is_number (digits f n) ≡ true
unfolding digits
digits-is_number zero n = refl
digits-is_number (suc f) n = ground (
  arith,
  is_number-snoc (digits f (n / 10)) (b'0' + n % 10) (digits-is_number f (n / 10)) (ground arith),
)

-- The number that digits write.
value : ℕ → Str → ℕ
value n [] = n
value n (c ∷ s) = value (n * 10 + (c - b'0')) s

value-snoc : (n : ℕ) (s : Str) (c : ℕ) → value n (s ++ c ∷ []) ≡ value n s * 10 + (c - b'0')
unfolding value
value-snoc n [] c = refl
value-snoc n (d ∷ s) c = value-snoc (n * 10 + (d - b'0')) s c

value-digits : (f n : ℕ) → n < f → value 0 (digits f n) ≡ n
unfolding value digits
value-digits zero n h = ground arith
value-digits (suc f) n h = elim (Bool-cases (ltb n 10)) [
  | inl small ↦ ground arith
  | inr large ↦
      let high : value 0 (digits f (n / 10)) ≡ n / 10 = value-digits f (n / 10) (ground arith) in
      ground (arith, value-snoc 0 (digits f (n / 10)) (b'0' + n % 10))
]

digits-injective : (m n : ℕ) → digits (suc m) m ≡ digits (suc n) n → m ≡ n
digits-injective m n e =
    sym (value-digits (suc m) m (omega arith))
    ∙ ap (value 0) e
    ∙ value-digits (suc n) n (omega arith)

-- A number's text is its own.
pub show_int-injective : (i j : ℤ) → show_int i ≡ show_int j → i ≡ j
unfolding show_int
show_int-injective (pos m) (pos n) e = ap pos (digits-injective m n e)
show_int-injective (negsuc m) (negsuc n) e = ground (arith, digits-injective (suc m) (suc n))
show_int-injective (pos m) (negsuc n) e = absurd (ground (arith, digits-is_number (suc m) m))
show_int-injective (negsuc m) (pos n) e = absurd (ground (arith, digits-is_number (suc n) n))

number-lacks :
    (c : ℕ) (s : Str) → is_number s ≡ true → (leb b'0' c && leb c b'9') ≡ false → lacks c s ≡ true
number-lacks c [] h k = refl
number-lacks c (d ∷ s) h k = ground (arith, number-lacks c s)

-- A character that is neither a digit nor the sign is not in a number's text.
pub show_int-lacks :
    (c : ℕ) (i : ℤ)
    → (leb b'0' c && leb c b'9') ≡ false
    → (b'-' == c) ≡ false
    → lacks c (show_int i) ≡ true
unfolding show_int
show_int-lacks c (pos n) h k = number-lacks c (digits (suc n) n) (digits-is_number (suc n) n) h
show_int-lacks c (negsuc n) h k = ground (
  arith,
  number-lacks c (digits (suc (suc n)) (suc n)) (digits-is_number (suc (suc n)) (suc n)) h,
)

-- No newline in a text.
abbrev pub is_one_line : Str → Bool
is_one_line s = lacks b'\n' s

pub show_int-is_one_line : (t : ℤ) → is_one_line (show_int t) ≡ true
show_int-is_one_line t = show_int-lacks b'\n' t refl refl
