-- ===== src/Fixture/Ids.antt =====
-- The ids of fixtures stay clear of the ids that rows are given.
use Prim.Native.Nat.{◌^◌}
use go_bootstrap.Prelude.{String, ◌≤◌, ◌<◌, arith}
use go_bootstrap.Fixture.{Digest, id}

-- An id is at least 2^28 and less than 2^29, whatever the digest is: it is above the ids that serial
-- columns reach in tests, and it fits a signed 32-bit column.
pub id-bounds :
    (sha256 : String → Digest) (table name : String)
    → (2 ^ 28 ≤ id sha256 table name) × (id sha256 table name < 2 ^ 29)
unfolding id
id-bounds sha256 table name = (omega arith, omega arith)
