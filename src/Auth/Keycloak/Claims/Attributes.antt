-- ===== src/Auth/Keycloak/Claims/Attributes.antt =====
-- The bounds on what src/auth/keycloak/claims.rs collects as attributes and groups.
use mayfly_server.Prelude.{
  ◌≡◌, ◌≢◌, ◌≤◌, suc, Str, List, [], ◌∷◌, Option, false, leb, ◌==◌, length, length-take, take, All,
  text_eq, is_empty, Bool-cases, inl, inr, arith,
}
use mayfly_server.Prelude.Sort.{text_leb}
use mayfly_server.Auth.Keycloak.Claims.{
  ClaimValue, string, array, other, put, texts, none_left, max_values, max_attrs, add_attribute,
  collect_attributes, trim_start_slashes, normalize_groups,
}

-- One to 64 values.
abbrev pub IsBounded : Str × List Str → Type 0
IsBounded entry = (1 ≤ length entry.1) × (length entry.1 ≤ 64)

put-IsBounded :
    (key : Str) (values : List Str) (out : List (Str × List Str))
    → IsBounded (key, values)
    → All IsBounded out
    → All IsBounded (put key values out) × (length (put key values out) ≤ suc (length out))
unfolding put
put-IsBounded key values [] b h = ((b, tt), omega arith)
put-IsBounded key values ((k, vs) ∷ out) b h =
    let rest = put-IsBounded key values out b h.1 in
    elim (Bool-cases (text_eq key k)) [
      | inl same ↦ rw same ((b, h.1), omega arith)
      | inr differ ↦ elim (Bool-cases (text_leb key k)) [
        | inl before ↦ rw (differ, before) ((b, (h.0, h.1)), omega arith)
        | inr after ↦ rw (differ, after) ((h.0, rest.0), omega (arith, rest.1))
      ]
    ]

length-texts :
    (items : List (Option Str))
    → none_left (take max_values (texts items)) ≡ false
    → IsBounded ([], take max_values (texts items))
length-texts items some_left = (ground arith, omega (arith, length-take max_values (texts items)))

add_attribute-IsBounded :
    (key : Str) (value : ClaimValue) (out : List (Str × List Str))
    → All IsBounded out
    → All IsBounded (add_attribute key value out)
      × (length (add_attribute key value out) ≤ suc (length out))
unfolding add_attribute
add_attribute-IsBounded key (string s) out h =
    put-IsBounded key (s ∷ []) out (omega arith, omega arith) h
add_attribute-IsBounded key other out h = (h, omega arith)
add_attribute-IsBounded key (array items) out h =
    let values = take max_values (texts items) in
    elim (Bool-cases (none_left values)) [
      | inl nothing ↦ rw nothing (h, omega arith)
      | inr something ↦ rw something (put-IsBounded key values out (length-texts items something) h)
    ]

collect_attributes-IsBounded_from :
    (out : List (Str × List Str)) (extra : List (Str × ClaimValue))
    → All IsBounded out
    → length out ≤ 64
    → All IsBounded (collect_attributes out extra) × (length (collect_attributes out extra) ≤ 64)
unfolding collect_attributes
collect_attributes-IsBounded_from out [] h small = (h, small)
collect_attributes-IsBounded_from out ((key, value) ∷ extra) h small =
    elim (Bool-cases (leb max_attrs (length out))) [
      | inl full ↦ rw full (h, small)
      | inr room ↦
          let next = add_attribute-IsBounded key value out h in
          rw room (
            collect_attributes-IsBounded_from (add_attribute key value out) extra next.0
              (ground (arith, next.1)))
    ]

-- Whatever claims a token has, at most 64 of them become attributes, each with 1 to 64 values.
pub collect_attributes-IsBounded :
    (extra : List (Str × ClaimValue))
    → All IsBounded (collect_attributes [] extra) × (length (collect_attributes [] extra) ≤ 64)
collect_attributes-IsBounded extra = collect_attributes-IsBounded_from [] extra tt (omega arith)

no_slash : (g s : Str) → trim_start_slashes g ≢ b'/' ∷ s
unfolding trim_start_slashes
no_slash [] s e = cc
no_slash (c ∷ g) s e = elim (Bool-cases (c == b'/')) [
  | inl slash ↦ no_slash g s (rw slash at e)
  | inr plain ↦ ground arith
]

-- No group that is passed on is empty or begins with a slash.
normalize_groups-lacks :
    (groups : List Str)
    → All (λ (g : Str). (is_empty g ≡ false) × ((s : Str) → g ≢ b'/' ∷ s)) (normalize_groups groups)
unfolding normalize_groups
normalize_groups-lacks [] = tt
normalize_groups-lacks (g ∷ groups) = elim (Bool-cases (is_empty (trim_start_slashes g))) [
  | inl gone ↦ rw gone (normalize_groups-lacks groups)
  | inr left ↦ rw left ((left, no_slash g), normalize_groups-lacks groups)
]
