-- ===== src/Authz/Allows.antt =====
-- Who is permitted, in words of the allowlists.
use mayfly_server.Prelude.{
  ◌≡◌, ◌↔◌, ◌⊎◌, inl, inr, refl, Str, List, [], ◌∷◌, some, Bool, true, false, any, find, map, trim,
  split_once, eq_ignore_ascii_case, to_ascii_lowercase, Bool-cases, Option-cases, ||-true_iff, ◌||◌,
  if◌then◌else◌, arith,
}
use mayfly_server.Authz.{
  AccessConfig, Identity, allow, deny, contains_ci, any_ci, is_none_left, named, has_value, grants,
  attribute_match, authorize,
}

-- The texts differ in the case of ASCII letters at most.
abbrev pub SameText : Str → Str → Type 0
SameText s t = map to_ascii_lowercase s ≡ map to_ascii_lowercase t

pub eq_ignore_ascii_case_iff : (s t : Str) → (eq_ignore_ascii_case s t ≡ true) ↔ SameText s t
unfolding eq_ignore_ascii_case
eq_ignore_ascii_case_iff [] [] = (λ h. refl, λ h. refl)
eq_ignore_ascii_case_iff [] (b ∷ t) = (λ h. cc, λ h. cc)
eq_ignore_ascii_case_iff (a ∷ s) [] = (λ h. cc, λ h. cc)
eq_ignore_ascii_case_iff (a ∷ s) (b ∷ t) = ground (arith, eq_ignore_ascii_case_iff s t)

-- Some element satisfies the predicate.
abbrev pub Any : {A : Type 0} → (A → Type 0) → List A → Type 0
Any P [] = ⊥
Any P (x ∷ xs) = P x ⊎ Any P xs

any_iff :
    {A : Type 0} (p : A → Bool) (P : A → Type 0)
    → ((x : A) → (p x ≡ true) ↔ P x)
    → (xs : List A) → (any p xs ≡ true) ↔ Any P xs
any_iff p P same [] = (λ h. cc, λ h. absurd h)
any_iff p P same (x ∷ xs) =
    let or_iff = ||-true_iff (p x) (any p xs) in
    let rest = any_iff p P same xs in
    (
      λ h. elim (or_iff.0 h) [ inl a ↦ inl ((same x).0 a) | inr b ↦ inr (rest.0 b) ],
      λ h. elim h [ inl a ↦ or_iff.1 (inl ((same x).1 a)) | inr b ↦ or_iff.1 (inr (rest.1 b)) ],
    )

-- A fact of the identity is on the allowlist, up to case.
abbrev pub Overlap : List Str → List Str → Type 0
Overlap allowlist facts =
    Any (λ (fact : Str). Any (λ (candidate : Str). SameText candidate fact) allowlist) facts

contains_ci_iff :
    (haystack : List Str) (needle : Str)
    → (contains_ci haystack needle ≡ true) ↔ Any (λ (c : Str). SameText c needle) haystack
unfolding contains_ci
contains_ci_iff haystack needle =
    any_iff (λ c. eq_ignore_ascii_case c needle) (λ c. SameText c needle)
      (λ c. eq_ignore_ascii_case_iff c needle) haystack

any_ci_iff :
    (allowlist facts : List Str) → (any_ci allowlist facts ≡ true) ↔ Overlap allowlist facts
unfolding any_ci
any_ci_iff allowlist facts =
    any_iff (contains_ci allowlist) (λ fact. Any (λ (c : Str). SameText c fact) allowlist)
      (contains_ci_iff allowlist) facts

-- The first attribute with the key, up to case, has the value, up to case.
abbrev pub FirstHas : Str → Str → List (Str × List Str) → Type 0
FirstHas key value [] = ⊥
FirstHas key value ((k, values) ∷ attributes) =
    (SameText k key × Any (λ (v : Str). SameText v value) values)
    ⊎ ((¬ SameText k key) × FirstHas key value attributes)

has_value_iff :
    (key value : Str) (attributes : List (Str × List Str))
    → (has_value value (find (named key) attributes) ≡ true) ↔ FirstHas key value attributes
has_value_iff key value [] = (λ h. cc, λ h. absurd h)
has_value_iff key value ((k, values) ∷ attributes) =
    let same = eq_ignore_ascii_case_iff k key in
    let here =
      any_iff (λ v. eq_ignore_ascii_case v value) (λ v. SameText v value)
        (λ v. eq_ignore_ascii_case_iff v value) values in
    let rest = has_value_iff key value attributes in
    elim (Bool-cases (eq_ignore_ascii_case k key)) [
      | inl h ↦ rw h (
        λ a. inl (same.0 h, here.0 a),
        λ s. elim s [ inl (e, a) ↦ here.1 a | inr (ne, r) ↦ absurd (ne (same.0 h)) ],
      )
      | inr h ↦ rw h (
        λ a. inr (λ e. cc (same.1 e), rest.0 a),
        λ s. elim s [ inl (e, a) ↦ absurd (cc (same.1 e)) | inr (ne, r) ↦ rest.1 r ],
      )
    ]

-- The entry has the form `key=value` and the identity has this attribute.
abbrev pub Grants : List (Str × List Str) → Str → Type 0
Grants attributes entry =
    (key : Str) × (value : Str) × (split_once b'=' entry ≡ some (key, value))
    × FirstHas (trim key) (trim value) attributes

grants_iff :
    (attributes : List (Str × List Str)) (entry : Str)
    → (grants attributes (split_once b'=' entry) ≡ true) ↔ Grants attributes entry
unfolding grants
grants_iff attributes entry = elim (Option-cases (split_once b'=' entry)) [
  | inl malformed ↦ rw malformed (λ h. cc, λ (k, v, e, h). cc)
  | inr ((key, value), parsed) ↦ (
    λ h.
        (key, value, parsed, (has_value_iff (trim key) (trim value) attributes).0 (rw parsed at h)),
    λ (k, v, e, first). rw e ((has_value_iff (trim k) (trim v) attributes).1 first),
  )
]

Any-ext :
    {A : Type 0} (P Q : A → Type 0) → ((x : A) → P x → Q x) → (xs : List A) → Any P xs → Any Q xs
Any-ext P Q f [] h = h
Any-ext P Q f (x ∷ xs) h = elim h [ inl a ↦ inl (f x a) | inr b ↦ inr (Any-ext P Q f xs b) ]

no_Any : {A : Type 0} (P : A → Type 0) → ((x : A) → ¬ P x) → (xs : List A) → ¬ Any P xs
no_Any P f [] h = h
no_Any P f (x ∷ xs) h = elim h [ inl a ↦ f x a | inr b ↦ no_Any P f xs b ]

matches_iff :
    (allowed : List Str) (attributes : List (Str × List Str))
    → ((if is_none_left allowed || is_none_left attributes
          then false
          else any (λ entry. grants attributes (split_once b'=' entry)) allowed)
        ≡ true)
      ↔ Any (Grants attributes) allowed
matches_iff [] attributes = (λ h. cc, λ h. absurd h)
matches_iff (a ∷ allowed) [] =
    (λ h. cc, λ h. absurd (no_Any (Grants []) (λ x (k, v, e, none_has). none_has) (a ∷ allowed) h))
matches_iff (a ∷ allowed) (b ∷ attributes) =
    any_iff (λ entry. grants (b ∷ attributes) (split_once b'=' entry)) (Grants (b ∷ attributes))
      (grants_iff (b ∷ attributes)) (a ∷ allowed)

-- A fact of the identity is on one of the allowlists.
abbrev pub Permitted : AccessConfig → Identity → Type 0
Permitted access identity =
    Any (λ (user : Str). SameText user identity.username) access.allowed_users
    ⊎ Overlap access.allowed_orgs identity.organizations
    ⊎ Overlap access.allowed_teams identity.teams
    ⊎ Overlap access.allowed_groups identity.groups
    ⊎ Overlap access.allowed_roles identity.roles
    ⊎ Any (Grants identity.attributes) access.allowed_attributes

sum_iff : {A B C D : Type 0} → (A ↔ B) → (C ↔ D) → (A ⊎ C) ↔ (B ⊎ D)
sum_iff f g = (
  λ s. elim s [ inl a ↦ inl (f.0 a) | inr c ↦ inr (g.0 c) ],
  λ s. elim s [ inl b ↦ inl (f.1 b) | inr d ↦ inr (g.1 d) ],
)

first_match :
    (a b c d e f : Bool) (identity : Identity)
    → ((if a
          then allow
          else if b
          then allow
          else if c
          then allow
          else if d
          then allow
          else if e
          then allow
          else if f
          then allow
          else deny identity)
        ≡ allow)
      ↔ ((a ≡ true) ⊎ (b ≡ true) ⊎ (c ≡ true) ⊎ (d ≡ true) ⊎ (e ≡ true) ⊎ (f ≡ true))
first_match a b c d e f identity = ground arith

iff_trans : {A B C : Type 0} → (A ↔ B) → (B ↔ C) → A ↔ C
iff_trans f g = (λ a. g.0 (f.0 a), λ c. f.1 (g.1 c))

-- An identity is allowed exactly when its username, one of its organizations, teams, groups or roles
-- is on the allowlist for it, or an entry `key=value` of the allowed attributes fits the first of its
-- attributes with this key; all up to the case of ASCII letters, and the parts of an entry without
-- the white space around them.
pub authorize_iff :
    (access : AccessConfig) (identity : Identity)
    → (authorize access identity ≡ allow) ↔ Permitted access identity
unfolding authorize attribute_match
authorize_iff access identity =
    iff_trans
      (first_match (contains_ci access.allowed_users identity.username)
        (any_ci access.allowed_orgs identity.organizations)
        (any_ci access.allowed_teams identity.teams) (any_ci access.allowed_groups identity.groups)
        (any_ci access.allowed_roles identity.roles) (attribute_match access identity) identity)
      (sum_iff (contains_ci_iff access.allowed_users identity.username) (
        sum_iff (any_ci_iff access.allowed_orgs identity.organizations) (
          sum_iff (any_ci_iff access.allowed_teams identity.teams) (
            sum_iff (any_ci_iff access.allowed_groups identity.groups) (
              sum_iff (any_ci_iff access.allowed_roles identity.roles)
                (matches_iff access.allowed_attributes identity.attributes))))))
