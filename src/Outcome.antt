-- ===== src/Outcome.antt =====
-- How a call of the C++ code ends: it returns, throws one of the program's exceptions
-- (netdj2/engine/StdException.h and the classes below it), does something undefined, such as a read
-- outside of a container, or has not ended within the fuel of the model.
use netdj.Prelude.{Text}

-- `StdException::mType` and `mDescription`; the first is the class.
pub data Exception : Type 0 where
  std_exception : Text → Exception
  empty_collection : Text → Exception
  server_error : Text → Exception

pub data Outcome {ℓ} (A : Type ℓ) : Type ℓ where
  returns : A → Outcome A
  throws : Exception → Outcome A
  faults : Outcome A
  spins : Outcome A
