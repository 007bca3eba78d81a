-- ===== src/Web/Examples.antt =====
-- The theorems about the web package at a concrete site.
mod Throttled
mod Guarded
mod Signing
mod Failing
mod Revoked
