-- ===== src/Json/Injective.antt =====
-- Texts written with an escape that can be undone determine the values in them.
use mayfly_server.Prelude.{
  ◌≡◌, ◌≢◌, refl, ap, sym, ◌∙◌, ℕ, Str, lit, List, [], ◌∷◌, ◌++◌, false, ◌==◌, arith,
  cons-injective, ◌+◌, ◌-◌, ◌*◌, ◌/◌, ◌%◌, ◌<◌, ltb, if◌then◌else◌, Option, none, some,
}
use mayfly_server.Json.{hex_digit, escape_all, key_object, more_objects, objects}

hex_value : ℕ → ℕ
hex_value d = if ltb d b'a' then d - b'0' else d - b'a' + 10

hex_value-hex_digit : (n : ℕ) → n < 16 → hex_value (hex_digit n) ≡ n
unfolding hex_value
hex_value-hex_digit n h = ground arith

-- The character that an escape stands for, and the rest.
unfoldable pub unescape_code : ℕ → Str → Option (ℕ × Str)
unfolding hex_value
unescape_code c (z ∷ y ∷ h ∷ l ∷ s) = some (hex_value h * 16 + hex_value l, s)
unescape_code c _ = none

unfoldable pub unescape_short : ℕ → Str → Option (ℕ × Str)
unfolding unescape_code
unescape_short c s =
    if c == b'u'
    then unescape_code c s
    else if c == b'n'
    then some (b'\n', s)
    else if c == b'r'
    then some (b'\r', s)
    else if c == b't'
    then some (b'\t', s)
    else if c == b'b'
    then some (8, s)
    else if c == b'f'
    then some (12, s)
    else some (c, s)

unfoldable pub unescape : Str → Option (ℕ × Str)
unfolding unescape_short
unescape [] = none
unescape (c ∷ []) = if c == b'\\' then none else some (c, [])
unescape (c ∷ d ∷ s) = if c == b'\\' then unescape_short d s else some (c, d ∷ s)

pub unescape_code-escaped :
    (c : ℕ) (r : Str)
    → c < 0x20
    → unescape_code b'u' (b'0' ∷ b'0' ∷ hex_digit (c / 16) ∷ hex_digit (c % 16) ∷ r) ≡ some (c, r)
unfolding unescape_code
unescape_code-escaped c r h =
    rw (hex_value-hex_digit (c / 16) (omega arith), hex_value-hex_digit (c % 16) (omega arith))
      (ap (λ n. some (n, r)) (omega arith))

pub unescape-plain : (c : ℕ) (r : Str) → (c == b'\\') ≡ false → unescape (c ∷ r) ≡ some (c, r)
unfolding unescape
unescape-plain c [] h = ground arith
unescape-plain c (d ∷ r) h = ground arith

pub append_assoc : (a b c : Str) → (a ++ b) ++ c ≡ a ++ (b ++ c)
append_assoc [] b c = refl
append_assoc (d ∷ a) b c = ap (λ t. d ∷ t) (append_assoc a b c)

pub append-cancel : (p r s : Str) → p ++ r ≡ p ++ s → r ≡ s
append-cancel [] r s e = e
append-cancel (c ∷ p) r s e = append-cancel p r s ((cons-injective c c (p ++ r) (p ++ s) e).1)

abbrev opening : Str
opening = lit "{\"key_id\":\""

abbrev middle : Str
middle = lit ",\"public_key\":\""

module _ (escape : ℕ → Str) (decodes : (c : ℕ) (r : Str) → unescape (escape c ++ r) ≡ some (c, r))
    (not_quote : (c : ℕ) (r s : Str) → escape c ++ r ≢ b'"' ∷ s) where
  escape-injective : (c d : ℕ) (r s : Str) → escape c ++ r ≡ escape d ++ s → (c ≡ d) × (r ≡ s)
  escape-injective c d r s e =
      let same : some (c, r) ≡ some (d, s) = sym (decodes c r) ∙ ap unescape e ∙ decodes d s in
      ground (arith, same)

  -- A text ends at its closing quote.
  pub escape_all-injective :
      (a b r s : Str)
      → escape_all escape a ++ b'"' ∷ r ≡ escape_all escape b ++ b'"' ∷ s
      → (a ≡ b) × (r ≡ s)
  escape_all-injective [] [] r s e = (refl, (cons-injective b'"' b'"' r s e).1)
  escape_all-injective [] (d ∷ b) r s e = absurd (
      not_quote d (escape_all escape b ++ b'"' ∷ s) r
        (sym (append_assoc (escape d) (escape_all escape b) (b'"' ∷ s)) ∙ sym e))
  escape_all-injective (c ∷ a) [] r s e = absurd (
      not_quote c (escape_all escape a ++ b'"' ∷ r) s
        (sym (append_assoc (escape c) (escape_all escape a) (b'"' ∷ r)) ∙ e))
  escape_all-injective (c ∷ a) (d ∷ b) r s e =
      let (same, rest) =
        escape-injective c d (escape_all escape a ++ b'"' ∷ r) (escape_all escape b ++ b'"' ∷ s) (
          sym (append_assoc (escape c) (escape_all escape a) (b'"' ∷ r))
          ∙ e
          ∙ append_assoc (escape d) (escape_all escape b) (b'"' ∷ s)) in
      let (texts, tails) : (a ≡ b) × (r ≡ s) = escape_all-injective a b r s rest in
      (cc (same, texts), tails)

  key_object-append :
      (k : Str × Str) (r : Str)
      → key_object escape k ++ r
        ≡ opening
          ++ (escape_all escape k.0
              ++ b'"' ∷ (middle ++ (escape_all escape k.1 ++ b'"' ∷ b'}' ∷ r)))
  key_object-append k r = simp append_assoc

  key_object-injective :
      (k l : Str × Str) (r s : Str)
      → key_object escape k ++ r ≡ key_object escape l ++ s
      → (k ≡ l) × (r ≡ s)
  key_object-injective k l r s e =
      let (ids, more) =
        escape_all-injective k.0 l.0 _ _
          (append-cancel opening _ _ (sym (key_object-append k r) ∙ e ∙ key_object-append l s)) in
      let (publics, rest) = escape_all-injective k.1 l.1 _ _ (append-cancel middle _ _ more) in
      (cc (ids, publics), (cons-injective b'}' b'}' r s rest).1)

  -- The closing bracket ends the array.
  more_objects-injective :
      (ks ls : List (Str × Str)) (r s : Str)
      → more_objects escape ks ++ b']' ∷ r ≡ more_objects escape ls ++ b']' ∷ s
      → ks ≡ ls
  more_objects-injective [] [] r s e = refl
  more_objects-injective [] (l ∷ ls) r s e = absurd (ground (arith, cons-injective b']' b',' r _ e))
  more_objects-injective (k ∷ ks) [] r s e = absurd (ground (arith, cons-injective b',' b']' _ s e))
  more_objects-injective (k ∷ ks) (l ∷ ls) r s e =
      let (same, rest) = key_object-injective k l _ _ (
        sym (append_assoc (key_object escape k) (more_objects escape ks) (b']' ∷ r))
        ∙ (cons-injective b',' b',' _ _ e).1
        ∙ append_assoc (key_object escape l) (more_objects escape ls) (b']' ∷ s)) in
      let others : ks ≡ ls = more_objects-injective ks ls r s rest in cc (same, others)

  pub objects-injective :
      (ks ls : List (Str × Str)) (r s : Str)
      → objects escape ks ++ b']' ∷ r ≡ objects escape ls ++ b']' ∷ s
      → ks ≡ ls
  objects-injective [] [] r s e = refl
  objects-injective [] (l ∷ ls) r s e = absurd (
      ground (
        arith,
        cons-injective b']' b'{' r _ (
            e
            ∙ append_assoc (key_object escape l) (more_objects escape ls) (b']' ∷ s)
            ∙ key_object-append l _),
      ))
  objects-injective (k ∷ ks) [] r s e = absurd (
      ground (
        arith,
        cons-injective b'{' b']' _ s (
            sym (
              append_assoc (key_object escape k) (more_objects escape ks) (b']' ∷ r)
              ∙ key_object-append k _)
            ∙ e),
      ))
  objects-injective (k ∷ ks) (l ∷ ls) r s e =
      let (same, rest) = key_object-injective k l _ _ (
        sym (append_assoc (key_object escape k) (more_objects escape ks) (b']' ∷ r))
        ∙ e
        ∙ append_assoc (key_object escape l) (more_objects escape ls) (b']' ∷ s)) in
      let others : ks ≡ ls = more_objects-injective ks ls r s rest in cc (same, others)
