-- ===== src/Callbacks.antt =====
-- The callbacks that the client of a pool supplies, `std::function` objects whose code is not the
-- pool's: each call has one of these outcomes, which the environment chooses. A resource is named
-- by the identity of its object, a number.
use cpp_grpc_db.Prelude.{ℕ, Bool, true, false}

-- A call of the validator.
pub data Verdict : Type 0 where
  accepts rejects throws : Verdict

-- `try { ok = validator(*u); } catch (...) { ok = false; }`
abbrev pub is_ok : Verdict → Bool
is_ok accepts = true
is_ok _ = false

-- A call of the factory: an exception, a null `unique_ptr` or a resource.
pub data Made : Type 0 where
  threw null : Made
  made : ℕ → Made
