-- ===== src/Auth/Registry.antt =====
-- The provider registry of src/auth/registry.rs. The map is the list of its entries, one for each id.
use mayfly_server.Prelude.{
  ◌≡◌, refl, ap, ◌∙◌, inl, inr, Bool-cases, Str, List, [], ◌∷◌, Option, none, some, Bool, true,
  false, find, retain, not, map, trim, is_empty, text_eq, text_eq_iff, if◌then◌else◌, arith,
}
use mayfly_server.Prelude.Result.{Result, ok, err, ok_or}
use mayfly_server.Prelude.Sort.{sort_by, text_leb}
use mayfly_server.Auth.Provider.{
  AuthenticationProvider, AuthProviderError, ProviderMetadata, unknown_provider,
}

pub record ProviderRegistry : Type 0 where
  pub providers : List (Str × AuthenticationProvider)
  pub default_id : Str

unfoldable pub new : Str → ProviderRegistry
new default_id = record { providers = []; default_id = default_id }

abbrev pub keyed : Str → Str × AuthenticationProvider → Bool
keyed id entry = text_eq entry.0 id

-- `HashMap::insert`
abbrev pub inserted :
    Str
    → AuthenticationProvider
    → List (Str × AuthenticationProvider)
    → List (Str × AuthenticationProvider)
inserted id provider providers = (id, provider) ∷ retain (λ entry. not (keyed id entry)) providers

unfoldable pub register : ProviderRegistry → AuthenticationProvider → ProviderRegistry
register r provider = record r { providers = inserted provider.metadata.id provider r.providers }

abbrev pub provider_of : Option (Str × AuthenticationProvider) → Option AuthenticationProvider
provider_of none = none
provider_of (some (id, provider)) = some provider

unfoldable pub get : ProviderRegistry → Str → Option AuthenticationProvider
get r id = provider_of (find (keyed id) r.providers)

-- `selector.map(str::trim)`, and the default for an absent or empty one.
abbrev pub selected : ProviderRegistry → Option Str → Str
selected r none = r.default_id
selected r (some s) = if not (is_empty (trim s)) then trim s else r.default_id

unfoldable pub resolve :
    ProviderRegistry → Option Str → Result AuthProviderError AuthenticationProvider
resolve r selector = ok_or (get r (selected r selector)) unknown_provider

abbrev pub by_id : ProviderMetadata → ProviderMetadata → Bool
by_id a b = text_leb a.id b.id

abbrev pub metadata_of : Str × AuthenticationProvider → ProviderMetadata
metadata_of (id, provider) = provider.metadata

unfoldable pub list : ProviderRegistry → List ProviderMetadata
list r = sort_by by_id (map metadata_of r.providers)

find-removed :
    (id other : Str) (providers : List (Str × AuthenticationProvider))
    → text_eq id other ≡ false
    → find (keyed other) (retain (λ entry. not (keyed id entry)) providers)
      ≡ find (keyed other) providers
find-removed id other [] differ = refl
find-removed id other ((k, p) ∷ providers) differ = ground (
  arith,
  find-removed id other providers differ,
  text_eq_iff k id,
  text_eq_iff k other,
  text_eq_iff id other,
)

pub get-register :
    (r : ProviderRegistry) (p : AuthenticationProvider) (id : Str)
    → get (register r p) id ≡ (if text_eq p.metadata.id id then some p else get r id)
unfolding register get
get-register r p id = elim (Bool-cases (text_eq p.metadata.id id)) [
  | inl same ↦ rw same refl
  | inr other ↦ rw (other, find-removed p.metadata.id id r.providers other) refl
]

if-ok_or :
    (b : Bool) (p : AuthenticationProvider) (o : Option AuthenticationProvider)
    → ok_or (if b then some p else o) unknown_provider
      ≡ (if b then ok p else ok_or o unknown_provider)
if-ok_or true p o = refl
if-ok_or false p o = refl

resolved-register :
    (r : ProviderRegistry) (p : AuthenticationProvider) (id : Str)
    → ok_or (get (register r p) id) unknown_provider
      ≡ (if text_eq p.metadata.id id then ok p else ok_or (get r id) unknown_provider)
resolved-register r p id =
    ap (λ (o : Option AuthenticationProvider). ok_or o unknown_provider) (get-register r p id)
    ∙ if-ok_or (text_eq p.metadata.id id) p (get r id)

-- After a provider is registered, every selector that means its id, by its trimmed text or, if it is
-- absent or blank, by the default, resolves to the new provider, and every other selector resolves
-- as before.
pub resolve-register :
    (r : ProviderRegistry) (p : AuthenticationProvider) (selector : Option Str)
    → resolve (register r p) selector
      ≡ (if text_eq p.metadata.id (selected r selector) then ok p else resolve r selector)
unfolding resolve register
resolve-register r p none = resolved-register r p r.default_id
resolve-register r p (some s) =
    resolved-register r p (if not (is_empty (trim s)) then trim s else r.default_id)

-- A selector that is not blank never falls back to the default provider.
pub resolve-unknown :
    (r : ProviderRegistry) (s : Str)
    → is_empty (trim s) ≡ false
    → get r (trim s) ≡ none
    → resolve r (some s) ≡ err unknown_provider
unfolding resolve
resolve-unknown r s named missing = rw (named, missing) refl
