-- ===== src/Auth/Keycloak/Claims/Roles.antt =====
-- The roles that src/auth/keycloak/claims.rs collects.
use mayfly_server.Prelude.{
  ◌≡◌, ◌⊎◌, refl, inl, inr, Str, List, [], ◌∷◌, ◌++◌, Bool, true, false, ◌||◌, any, is_empty, All,
  eq_ignore_ascii_case, eq_ignore_ascii_case_refl, eq_ignore_ascii_case_comm, Bool-cases, arith,
}
use mayfly_server.Auth.Keycloak.Claims.{
  KeycloakClaims, push, push_all, push_client, push_clients, client_role, set_or_empty,
  collect_roles,
}

abbrev pub holds : List Str → Str → Bool
holds roles r = any (λ (x : Str). eq_ignore_ascii_case x r) roles

-- No role is empty, and no two are the same up to case.
abbrev pub IsClean : List Str → Type 0
IsClean [] = Unit
IsClean (r ∷ roles) = (is_empty r ≡ false) × (holds roles r ≡ false) × IsClean roles

any-append : (p : Str → Bool) (xs ys : List Str) → any p (xs ++ ys) ≡ (any p xs || any p ys)
any-append p [] ys = refl
any-append p (x ∷ xs) ys = ground (arith, any-append p xs ys)

IsClean-snoc :
    (roles : List Str) (r : Str)
    → IsClean roles
    → is_empty r ≡ false
    → holds roles r ≡ false
    → IsClean (roles ++ r ∷ [])
IsClean-snoc [] r c e h = (e, refl, tt)
IsClean-snoc (x ∷ roles) r c e h = (
  c.0,
  ground (
    arith,
    any-append (λ (y : Str). eq_ignore_ascii_case y x) roles (r ∷ []),
    eq_ignore_ascii_case_comm x r,
    c.1,
  ),
  IsClean-snoc roles r c.2 e (ground arith),
)

push-IsClean : (roles : List Str) (r : Str) → IsClean roles → IsClean (push roles r)
unfolding push
push-IsClean roles r c = elim (Bool-cases (is_empty r)) [
  | inl e ↦ rw e c
  | inr e ↦ elim (Bool-cases (holds roles r)) [
    | inl h ↦ rw (e, h) c
    | inr h ↦ rw (e, h) (IsClean-snoc roles r c e h)
  ]
]

-- What is held stays held.
holds-push : (roles : List Str) (r s : Str) → holds roles s ≡ true → holds (push roles r) s ≡ true
unfolding push
holds-push roles r s h =
    ground (arith, any-append (λ (x : Str). eq_ignore_ascii_case x s) roles (r ∷ []))

-- The role is held, unless it is empty.
abbrev pub IsHeld : List Str → Str → Type 0
IsHeld roles r = (is_empty r ≡ true) ⊎ (holds roles r ≡ true)

push-IsHeld : (roles : List Str) (r : Str) → IsHeld (push roles r) r
unfolding push
push-IsHeld roles r = elim (Bool-cases (is_empty r)) [
  | inl e ↦ inl e
  | inr e ↦ inr (elim (Bool-cases (holds roles r)) [
    | inl h ↦ rw (e, h) h
    | inr h ↦
        rw (e, h)
          (ground (
            arith,
            any-append (λ (x : Str). eq_ignore_ascii_case x r) roles (r ∷ []),
            eq_ignore_ascii_case_refl r,
          ))
  ])
]

IsHeld-push : (roles : List Str) (r s : Str) → IsHeld roles s → IsHeld (push roles r) s
IsHeld-push roles r s h = elim h [ inl e ↦ inl e | inr k ↦ inr (holds-push roles r s k) ]

-- What `push` keeps, the loops keep.
module _ (P : List Str → Type 0)
    (keep : (roles : List Str) (r : Str) → P roles → P (push roles r)) where
  push_all-keep : (roles rs : List Str) → P roles → P (push_all roles rs)
  unfolding push_all
  push_all-keep roles [] h = h
  push_all-keep roles (r ∷ rs) h = push_all-keep (push roles r) rs (keep roles r h)

  push_client-keep :
      (client : Str) (roles rs : List Str) → P roles → P (push_client client roles rs)
  unfolding push_client
  push_client-keep client roles [] h = h
  push_client-keep client roles (r ∷ rs) h =
      push_client-keep client (push (push roles (client_role client r)) r) rs
        (keep (push roles (client_role client r)) r (keep roles (client_role client r) h))

  push_clients-keep :
      (roles : List Str) (resource : List (Str × List Str))
      → P roles
      → P (push_clients roles resource)
  unfolding push_clients
  push_clients-keep roles [] h = h
  push_clients-keep roles ((client, set) ∷ resource) h =
      push_clients-keep (push_client client roles set) resource
        (push_client-keep client roles set h)

-- Both forms of a client's role.
abbrev pub HoldsBoth : List Str → Str → Str → Type 0
HoldsBoth roles client r = IsHeld roles (client_role client r) × IsHeld roles r

abbrev pub HoldsClient : List Str → Str × List Str → Type 0
HoldsClient roles entry = All (HoldsBoth roles entry.0) entry.1

keeps_IsHeld : (s : Str) (roles : List Str) (r : Str) → IsHeld roles s → IsHeld (push roles r) s
keeps_IsHeld s roles r h = IsHeld-push roles r s h

keeps_both :
    (client s : Str) (roles : List Str) (r : Str)
    → HoldsBoth roles client s
    → HoldsBoth (push roles r) client s
keeps_both client s roles r h =
    (IsHeld-push roles r (client_role client s) h.0, IsHeld-push roles r s h.1)

All-keep :
    (client : Str) (set roles : List Str) (r : Str)
    → All (HoldsBoth roles client) set
    → All (HoldsBoth (push roles r) client) set
All-keep client [] roles r h = tt
All-keep client (s ∷ set) roles r h =
    (keeps_both client s roles r h.0, All-keep client set roles r h.1)

push_all-IsHeld : (roles rs : List Str) → All (IsHeld (push_all roles rs)) rs
unfolding push_all
push_all-IsHeld roles [] = tt
push_all-IsHeld roles (r ∷ rs) = (
  push_all-keep (λ R. IsHeld R r) (keeps_IsHeld r) (push roles r) rs (push-IsHeld roles r),
  push_all-IsHeld (push roles r) rs,
)

push_client-HoldsBoth :
    (client : Str) (roles rs : List Str) → All (HoldsBoth (push_client client roles rs) client) rs
unfolding push_client
push_client-HoldsBoth client roles [] = tt
push_client-HoldsBoth client roles (r ∷ rs) =
    let once = push roles (client_role client r) in
    (
      push_client-keep (λ R. HoldsBoth R client r) (keeps_both client r) client (push once r) rs
          (
            IsHeld-push once r (client_role client r) (push-IsHeld roles (client_role client r)),
            push-IsHeld once r,
          ),
      push_client-HoldsBoth client (push once r) rs,
    )

push_clients-HoldsClient :
    (roles : List Str) (resource : List (Str × List Str))
    → All (HoldsClient (push_clients roles resource)) resource
unfolding push_clients
push_clients-HoldsClient roles [] = tt
push_clients-HoldsClient roles ((client, set) ∷ resource) = (
  push_clients-keep (λ R. All (HoldsBoth R client) set) (All-keep client set)
      (push_client client roles set) resource (push_client-HoldsBoth client roles set),
  push_clients-HoldsClient (push_client client roles set) resource,
)

All-IsHeld-keep :
    (rs roles : List Str) (r : Str) → All (IsHeld roles) rs → All (IsHeld (push roles r)) rs
All-IsHeld-keep [] roles r h = tt
All-IsHeld-keep (s ∷ rs) roles r h = (IsHeld-push roles r s h.0, All-IsHeld-keep rs roles r h.1)

-- The collected roles hold, up to the case of ASCII letters, every realm role that is not empty and,
-- for every client, each of its roles both as `client/role` and, if it is not empty, alone; none of
-- them is empty, and no two are the same up to case.
pub collect_roles-IsClean :
    (claims : KeycloakClaims)
    → All (IsHeld (collect_roles claims)) (set_or_empty claims.realm_access)
      × All (HoldsClient (collect_roles claims)) (set_or_empty claims.resource_access)
      × IsClean (collect_roles claims)
unfolding collect_roles
collect_roles-IsClean claims =
    let realm = set_or_empty claims.realm_access in
    let resource = set_or_empty claims.resource_access in
    (
      push_clients-keep (λ R. All (IsHeld R) realm) (All-IsHeld-keep realm) (push_all [] realm)
          resource (push_all-IsHeld [] realm),
      push_clients-HoldsClient (push_all [] realm) resource,
      push_clients-keep IsClean push-IsClean (push_all [] realm) resource
          (push_all-keep IsClean push-IsClean [] realm tt),
    )
