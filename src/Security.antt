-- ===== src/Security.antt =====
-- app/security.py: who a request acts as, and the setup wizard that makes the first account.
-- Password hashes are argon2's, so a user row has no hash here; `hash_password` and the sign in are
-- not modelled.
pub mod Setup
