-- ===== src/Audit/Toy.antt =====
-- An instance of the parameters of Audit/Hash that can be run: a digest of 64 characters that adds
-- up the bytes, instants in milliseconds, and JSON values that are their own texts.
use mayfly_server.Prelude.{
  ℕ, zero, suc, ◌+◌, ◌*◌, ◌/◌, ◌%◌, ◌≡◌, refl, Str, List, [], ◌∷◌, ◌++◌, Option, none, some, length,
  as_bytes, utf8, arith,
}
use mayfly_server.Audit.Hash.{Externals, IsLawful, Canonical}

abbrev total : List ℕ → ℕ
total [] = 0
total (n ∷ ns) = n + total ns

abbrev zeros : ℕ → Str
zeros zero = []
zeros (suc n) = b'0' ∷ zeros n

abbrev pub toy_digest : List ℕ → Str
toy_digest bytes = (b'0' + total bytes % 10) ∷ zeros 63

abbrev pub toy_instant : Str → Option ℕ
toy_instant (n ∷ []) = some (n * 1_000_000)
toy_instant _ = none

abbrev or_empty : Option Str → Str
or_empty none = []
or_empty (some s) = s

abbrev toy_canonical : Canonical Str → Str
toy_canonical v =
    v.chain_position ∷ v.event_type ++ v.actor ++ or_empty v.subject ++ v.recorded_at ++ v.metadata

abbrev pub toy : Externals Str
toy = record {
  sha256_hex = toy_digest;
  to_rfc3339_millis = λ t. t / 1_000_000 ∷ [];
  parse_from_rfc3339 = toy_instant;
  value_to_string = some;
  value_from_str = some;
  canonical_to_string = λ v. some (toy_canonical v);
}

utf8-digit : (n : ℕ) → utf8 (b'0' + n % 10) ≡ (b'0' + n % 10) ∷ []
unfolding utf8
utf8-digit n = ground arith

length-toy_digest : (b : List ℕ) → length (as_bytes (toy_digest b)) ≡ 64
unfolding as_bytes
length-toy_digest b = rw (utf8-digit (total b)) refl

pub toy-IsLawful : IsLawful toy
toy-IsLawful = record {
  parse-to_rfc3339_millis = λ t. refl;
  value_from_str-to_string = λ v s h. ground arith;
  len-sha256_hex = length-toy_digest;
}
