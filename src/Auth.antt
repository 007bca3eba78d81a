-- ===== src/Auth.antt =====
-- Package auth: the users table and the credential flow (auth/users.go, auth/reset.go). The generated
-- variants of auth/conn.gen.go are the same functions on the pool, and have no definition of their own.
pub mod Users
pub mod Reset
mod Examples
