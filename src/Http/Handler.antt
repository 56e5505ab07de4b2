-- ===== src/Http/Handler.antt =====
-- What the handlers of src/routes share: the state of src/state.rs with the parts that do not
-- change, the step of a handler that may fail, and the appending of audit events. The clock stands
-- still during a request.
use mayfly_server.Prelude.{◌≡◌, refl, inl, inr, arith, ℕ, Str, List, Option, none, some}
use mayfly_server.Prelude.Int.{ℤ}
use mayfly_server.Prelude.Result.{Result, ok, err, ok_or, Result-cases}
use mayfly_server.Audit.Model.{AuditError, AuditEntry, NewAuditEntry}
use mayfly_server.Audit.Context.{RequestAuditContext}
use mayfly_server.Audit.Repository.{AuditTable}
use mayfly_server.Audit.Verifier.{append_audit_event}
use mayfly_server.Machines.Enrollment.{Crates, State}
use mayfly_server.Auth.Registry.{ProviderRegistry}
use mayfly_server.Authz.{AccessConfig}
use mayfly_server.Ca.Sign.{CertificateRequest, CertificateResponse}
use mayfly_server.Ca.Errors.{CaError}
use mayfly_server.Http.Errors.{ApiError, internal}

-- A member of `json!({…})`.
pub data Member (Value : Type 0) : Type 0 where
  text : Str → Member Value
  optional : Option Str → Member Value
  number : ℤ → Member Value
  texts : List Str → Member Value
  nested : Value → Member Value

-- The CA manager, which is not in the repository, by the answers of its methods.
pub record CaManager : Type 0 where
  pub sign_certificate : CertificateRequest → Result CaError CertificateResponse
  pub primary_public_key : Result CaError Str
  pub generation : ℕ

pub record App (Value Key : Type 0) : Type 0 where
  pub crates : Crates Value Key
  pub json : List (Str × Member Value) → Value
  pub context_value : RequestAuditContext → Value
  -- `to_rfc3339`
  pub to_rfc3339 : ℕ → Str
  pub to_lowercase : Str → Str
  -- `{:?}` of a list of texts
  pub debug : List Str → Str
  pub providers : ProviderRegistry
  pub access : AccessConfig
  pub ca : Option CaManager

abbrev pub Handler : Type 0 → Type 0
Handler A = State → Result ApiError A × State

abbrev pub continue :
    {A B : Type 0} → Result ApiError A × State → (A → Handler B) → Result ApiError B × State
continue (ok a, s) f = f a s
continue (err e, s) f = (err e, s)

infixl 5 ◌>>=◌ ◌>>◌
abbrev pub ◌>>=◌ : {A B : Type 0} → Handler A → (A → Handler B) → Handler B
(m >>= f) s = continue (m s) f

abbrev pub ◌>>◌ : {A B : Type 0} → Handler A → Handler B → Handler B
m >> k = m >>= λ _. k

abbrev pub pure : {A : Type 0} → A → Handler A
pure a s = (ok a, s)

-- `?` on a result that leaves the state alone, with the conversion of its error.
abbrev pub mapped : {E A : Type 0} → (E → ApiError) → Result E A → Result ApiError A
mapped f (ok a) = ok a
mapped f (err e) = err (f e)

abbrev pub lift : {A : Type 0} → Result ApiError A → Handler A
lift r s = (r, s)

abbrev pub appended :
    {Value : Type 0} → Result AuditError (AuditEntry Value × AuditTable) → Handler Unit
appended (ok (e, log)) s = (ok tt, record s { audit_log = log })
appended (err e) s = (err internal, s)

-- What a successful step shows of its parts.
pub bind-ok :
    {A B : Type 0} (m : Handler A) (f : A → Handler B) (s s' : State) (b : B)
    → (m >>= f) s ≡ (ok b, s')
    → (a : A) × (t : State) × (m s ≡ (ok a, t)) × (f a t ≡ (ok b, s'))
bind-ok {A} {B} m f s s' b h = continued (m s) refl h
  where
    continued :
        (step : Result ApiError A × State)
        → m s ≡ step
        → continue step f ≡ (ok b, s')
        → (a : A) × (t : State) × (m s ≡ (ok a, t)) × (f a t ≡ (ok b, s'))
    continued (ok a, t) e k = (a, t, e, k)
    continued (err e', t) e k = absurd (ground arith)

pub lift-bind :
    {A B : Type 0} (r : Result ApiError A) (f : A → Handler B) (s s' : State) (b : B)
    → (lift r >>= f) s ≡ (ok b, s')
    → (a : A) × (r ≡ ok a) × (f a s ≡ (ok b, s'))
lift-bind (ok a) f s s' b h = (a, refl, h)
lift-bind (err e) f s s' b h = absurd (ground arith)

pub ok_or-ok : {A : Type 0} (o : Option A) (e : ApiError) (a : A) → ok_or o e ≡ ok a → o ≡ some a
ok_or-ok none e a h = absurd (ground arith)
ok_or-ok (some b) e a h = ground arith

pub mapped-ok :
    {E A : Type 0} (f : E → ApiError) (r : Result E A) (a : A) → mapped f r ≡ ok a → r ≡ ok a
mapped-ok f (ok b) a h = cc
mapped-ok f (err e) a h = absurd (ground arith)

module _ {Value Key : Type 0} (app : App Value Key) where
  unfoldable pub append : NewAuditEntry Value → ℕ → Handler Unit
  append event now s = appended (append_audit_event app.crates.audit s.audit_log event now) s

  pub append-ok :
      (event : NewAuditEntry Value) (now : ℕ) (s t : State) (u : Unit)
      → append event now s ≡ (ok u, t)
      → (e : AuditEntry Value) × (append_audit_event app.crates.audit s.audit_log event now
          ≡ ok (e, t.audit_log))
        × (t.registry ≡ s.registry)
  unfolding append
  append-ok event now s t u h =
      elim (Result-cases (append_audit_event app.crates.audit s.audit_log event now)) [
        | inr (e, failed) ↦ absurd (ground arith)
        | inl ((e, log), done) ↦ (e, ground arith, ground arith)
      ]
