-- ===== src/Core/Record.antt =====
-- `Record` and `RecordRepository` of core/record.go, with the errors that the program names.
use tsdns.Prelude.{ℕ, Bool, Option, List, Bytes, ℤ, Result, ◌==◌}
use tsdns.Net.Addr.{AddrPort}

-- A point in time in nanoseconds; 0 is Go's zero time. Only `IsZero` and the order matter here.
abbrev pub Time : Type 0
Time = ℕ

abbrev pub is_zero : Time → Bool
is_zero t = t == 0

pub record Record : Type 0 where
  pub id : ℤ
  pub instance_id : ℤ
  pub domain : Bytes
  pub targets : List AddrPort
  pub created_at : Time
  pub updated_at : Time
  pub deleted_at : Option Time

-- The interface of the storage backends, over their own state. A call may change the state, also
-- when it fails. The context of a call is part of the state of the backend.
pub record RecordRepository (R : Type 0) : Type 0 where
  pub find : R → Result (List Record) × R
  pub find_by_domain : Bytes → R → Result Record × R
  pub create : Option Record → R → Result (Unit {0}) × R
  pub delete : Bytes → R → Result (Unit {0}) × R
  pub delete_by_instance_id : ℤ → R → Result (Unit {0}) × R
  pub close : R → Result (Unit {0}) × R
