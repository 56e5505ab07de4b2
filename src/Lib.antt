-- ===== src/Lib.antt =====
-- The certificate and enrollment server of this repository (Rust, src/ at the repository's root).
--
-- Machines enroll with a single-use token and an SSH key (machines/service.rs), then sign each
-- request (agentauth/), report heartbeats (machines/protocol.rs), acknowledge the bundle of CA keys
-- that they trust (cabundle/, signed by bundle/) and are administered by operators
-- (machines/admin.rs). Security-relevant actions are appended to a hash-chained audit log (audit/),
-- from which, with the machines, the views of a rollout are derived (rollout/). Operators log in at an identity provider
-- (auth/), whose facts an allowlist judges (authz/), before a handler (routes/) issues a certificate
-- or changes a machine.
--
-- Files and the code that they model:
--   Prelude: Booleans, lists, texts as lists of code points with their UTF-8 bytes, results, sorting,
--     and `constant_time_eq` of src/machines/token.rs.
--   Audit: Model, Hash, Repository and Verifier are src/audit/{model,hash,repository,verifier,
--     service}.rs, Search is query.rs and the filtered queries of repository.rs; Chain, Tamper and
--     the files below Search hold the proofs, Toy an instance of the parameters.
--   Machines: Models, Token, Validation, Store, Enrollment, Protocol and Admin are
--     src/machines/{models,errors,token,validation,repository,service,protocol,admin}.rs; the files
--     below Store, Enrollment, Protocol and Admin hold the proofs.
--   AgentAuth: Nonce, Signing and Middleware are src/agentauth/{nonce,signing,middleware}.rs;
--     Decimal is the standard library's text form of `i64`.
--   CaBundle: Canonical and Build are src/cabundle/models.rs, Service is repository.rs and
--     service.rs of the same directory; the files below them hold the proofs.
--   Rollout: Snapshot, Views, Health, Explain and History are src/rollout/service.rs with the
--     data of models.rs; Counts and Failures hold the proofs.
--   Json: the JSON texts that src/cabundle/models.rs and src/bundle/canonical.rs write by hand.
--   Bundle: Models, Canonical, Signer and Jitter are src/bundle/{models,canonical,signer,jitter}.rs,
--     Seed is `load_or_create` of signer.rs, Service, Fleet and Retirement are
--     src/bundle/service.rs with the outcomes of models.rs; the files below them hold the proofs.
--   Ca: Sign is `sign_certificate` of src/ca/service.rs, Errors is src/ca/errors.rs.
--   Authz: src/authz/{service,models,errors}.rs; Allows holds the proofs.
--   Auth: Provider, Registry and Github are src/auth/{provider,registry,github}.rs, Keycloak/Claims,
--     Keycloak/Verify, Keycloak/Config, Keycloak/Oidc and Keycloak/Provider with Keycloak/Device are
--     src/auth/keycloak/{claims,verify,config,oidc,mod}.rs; the files below Claims, Oidc and
--     Provider hold the proofs.
--   Config: src/config.rs with src/environment.rs; Defaults are its default values, Valid holds the
--     proofs, Startup is what src/main.rs, src/state.rs and src/server.rs derive from it.
--   Http: Errors is src/errors.rs, Handler the state and the parameters that handlers share,
--     Identity is src/routes/auth.rs with the two `authorize_admin`, Issue is
--     src/routes/certificates.rs, AdminMachines with MachineQuery is
--     src/routes/admin_machines.rs, Agent is src/routes/ca_bundle.rs.
--
-- A table of the database is a list of rows in the order of insertion; a query is a function on it,
-- with its UNIQUE constraints, and a transaction yields the new tables with its success only.
-- Instants are nanoseconds since the Unix epoch, as natural numbers. Functions of other crates
-- (digests, signatures, SSH keys, JSON, instants as texts, random bytes) are the fields of records
-- that the definitions take as parameters; what a theorem needs of them is a hypothesis that it
-- names. The only fuel is that of `digits` in AgentAuth/Decimal, one more than the number, which is
-- enough since each round divides by ten. A handler is a function on the tables; its clock is read
-- once, and no other request runs between its steps. The audit context of a request is
-- src/audit/context.rs in Audit/Context. Arithmetic on `i64` that can overflow, in the timestamp
-- window of src/agentauth/middleware.rs, wraps around as in a release build.
--
-- Not modelled: HTTP routing, the GitHub client, TLS, logging and start-up, failures of the
-- database's connection, and the parts of src/ that no file above names.
pub mod Prelude
pub mod Audit
pub mod Machines
pub mod AgentAuth
pub mod CaBundle
pub mod Rollout
pub mod Bundle
pub mod Ca
pub mod Authz
pub mod Auth
pub mod Http
pub mod Config
pub mod Json
