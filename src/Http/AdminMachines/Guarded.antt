-- ===== src/Http/AdminMachines/Guarded.antt =====
-- What the handlers of src/routes/admin_machines.rs do to the registry: nothing for an operator who
-- is not permitted, and for one who is, what the service promises.
use mayfly_server.Prelude.{◌≡◌, refl, ℕ, Str, lit, List, none, inl, inr, ◌⊎◌}
use mayfly_server.Prelude.Result.{ok, err, Result-cases}
use mayfly_server.Audit.Context.{Headers}
use mayfly_server.Machines.Models.{MachineStatus}
use mayfly_server.Machines.Enrollment.{State}
use mayfly_server.Authz.{Identity, AuthzDecision, allow, deny, authorize}
use mayfly_server.Authz.Allows.{Permitted, authorize_iff}
use mayfly_server.Http.Errors.{ApiError}
use mayfly_server.Http.Handler.{App, Handler, ◌>>=◌, bind-ok, lift-bind}
use mayfly_server.Http.Identity.{
  resolve_identity, authorize_machine_admin, machine_denied, admitted, admitted-ok, admitted-denied,
}
use mayfly_server.Http.AdminMachines.{
  set_lifecycle, change_status, delete_machine, remove_machine, reissue_identity, replace_machine,
}

AuthzDecision-cases : (d : AuthzDecision) → (d ≡ allow) ⊎ ((facts : Identity) × (d ≡ deny facts))
AuthzDecision-cases allow = inl refl
AuthzDecision-cases (deny facts) = inr (facts, refl)

module _ {Value Key : Type 0} (app : App Value Key) where
  -- The token resolves to an identity that the allowlists permit.
  abbrev pub IsOperator : Str → Type 0
  IsOperator token =
      (identity : Identity) × (resolve_identity app none token ≡ ok identity)
      × Permitted app.access identity

  -- The handler answers with an error and leaves machines and tokens as they were.
  abbrev pub Refuses : {A : Type 0} → Handler A → State → Type 0
  Refuses handler s =
      ((e : ApiError) × ((handler s).0 ≡ err e)) × ((handler s).1.registry ≡ s.registry)

  authorize_machine_admin-Refuses :
      {B : Type 0} (token action : Str) (now : ℕ) (f : Identity → Handler B) (s : State)
      → ¬ IsOperator token
      → Refuses (authorize_machine_admin app token action now >>= f) s
  unfolding authorize_machine_admin
  authorize_machine_admin-Refuses token action now f s stranger =
      elim (Result-cases (resolve_identity app none token)) [
        | inr (e, failed) ↦ rw failed ((e, refl), refl)
        | inl (identity, resolved) ↦ elim (AuthzDecision-cases (authorize app.access identity)) [
          | inl allowed ↦
              absurd (stranger (identity, resolved, (authorize_iff app.access identity).0 allowed))
          | inr (facts, denied) ↦
              rw (resolved, denied)
                (admitted-denied app (machine_denied app action) identity facts now f s)
        ]
      ]

  -- Without a token of a permitted operator, approving, disabling, enabling, revoking, deleting and
  -- re-enrolling a machine all fail, and no machine and no enrollment token changes.
  pub mutations-Refuses :
      (headers : Headers) (request_id token id action token_id : Str) (bytes : List ℕ)
      (target : MachineStatus) (now : ℕ) (s : State)
      → ¬ IsOperator token
      → Refuses (set_lifecycle app headers request_id token id target action now) s
        × Refuses (delete_machine app headers request_id token id now) s
        × Refuses (reissue_identity app headers request_id token id token_id bytes action now) s
  unfolding set_lifecycle delete_machine reissue_identity
  mutations-Refuses headers request_id token id action token_id bytes target now s stranger = (
    authorize_machine_admin-Refuses token action now
        (change_status app headers request_id id target action now) s stranger,
    authorize_machine_admin-Refuses token (lit "machine.delete") now
        (remove_machine app headers request_id id now) s stranger,
    authorize_machine_admin-Refuses token action now
        (replace_machine app headers request_id id token_id bytes action now) s stranger,
  )

  pub authorize_machine_admin-bind :
      {B : Type 0} (token action : Str) (now : ℕ) (f : Identity → Handler B) (s s' : State) (b : B)
      → (authorize_machine_admin app token action now >>= f) s ≡ (ok b, s')
      → (identity : Identity) × (resolve_identity app none token ≡ ok identity)
        × Permitted app.access identity
        × (f identity s ≡ (ok b, s'))
  unfolding authorize_machine_admin
  authorize_machine_admin-bind token action now f s s' b h =
      let (i, t, authorized, rest) =
        bind-ok (authorize_machine_admin app token action now) f s s' b h in
      let (identity, resolved, passed) =
        lift-bind (resolve_identity app none token)
          (λ identity.
            admitted app (machine_denied app action) identity now (authorize app.access identity))
          s t i authorized in
      let (allowed, same, kept) =
        admitted-ok app (machine_denied app action) identity i now (authorize app.access identity) s
          t passed in
      (identity, resolved, (authorize_iff app.access identity).0 allowed, rw (same, kept) rest)
