-- ===== src/CaBundle/Canonical/Injective.antt =====
-- The canonical JSON of src/cabundle/models.rs determines the bundle.
use mayfly_server.Prelude.{
  ◌≡◌, ◌≢◌, sym, ◌∙◌, refl, ℕ, Str, lit, List, [], ◌∷◌, ◌++◌, map, arith, separated-injective, some,
}
use mayfly_server.Prelude.Int.{ℤ}
use mayfly_server.Json.Injective.{
  unescape, unescape_short, unescape-plain, unescape_code-escaped, append_assoc, append-cancel,
  objects-injective,
}
use mayfly_server.AgentAuth.Decimal.{show_int, show_int-lacks, show_int-injective}
use mayfly_server.CaBundle.Canonical.{CaBundleKey, escaped, fields, keys_json, canonical_json}

unescape-escaped : (c : ℕ) (r : Str) → unescape (escaped c ++ r) ≡ some (c, r)
unfolding escaped unescape unescape_short
unescape-escaped c r = ground (arith, unescape-plain c r, unescape_code-escaped c r)

escaped-not_quote : (c : ℕ) (r s : Str) → escaped c ++ r ≢ b'"' ∷ s
unfolding escaped
escaped-not_quote c r s e = ground arith

fields-injective : (ks ls : List CaBundleKey) → map fields ks ≡ map fields ls → ks ≡ ls
fields-injective [] [] e = refl
fields-injective [] (l ∷ ls) e = absurd (ground arith)
fields-injective (k ∷ ks) [] e = absurd (ground arith)
fields-injective (k ∷ ks) (l ∷ ls) e =
    let others : map fields ks ≡ map fields ls = ground (arith, e) in
    let rest : ks ≡ ls = fields-injective ks ls others in
    let ids : k.key_id ≡ l.key_id = ground (arith, e) in
    let publics : k.public_key ≡ l.public_key = ground (arith, e) in cc (ids, publics, rest)

canonical_json-split :
    (g : ℤ) (ks : List CaBundleKey)
    → canonical_json g ks
      ≡ lit "{\"generation\":"
        ++ (show_int g ++ b',' ∷ (lit "\"keys\":[" ++ (keys_json ks ++ b']' ∷ b'}' ∷ [])))
unfolding canonical_json
canonical_json-split g ks = simp append_assoc

-- Bundles with the same canonical JSON have the same generation and the same keys in the same
-- order, whatever characters the ids and the keys hold.
pub canonical_json-injective :
    (g h : ℤ) (ks ls : List CaBundleKey)
    → canonical_json g ks ≡ canonical_json h ls
    → (g ≡ h) × (ks ≡ ls)
unfolding keys_json
canonical_json-injective g h ks ls e =
    let (numbers, rest) =
      separated-injective b',' (show_int g) (show_int h) _ _ (show_int-lacks b',' g refl refl)
        (show_int-lacks b',' h refl refl)
        (append-cancel (lit "{\"generation\":") _ _
          (sym (canonical_json-split g ks) ∙ e ∙ canonical_json-split h ls)) in
    (
      show_int-injective g h numbers,
      fields-injective ks ls (
          objects-injective escaped unescape-escaped escaped-not_quote (map fields ks)
            (map fields ls) _ _ (append-cancel (lit "\"keys\":[") _ _ rest)),
    )
