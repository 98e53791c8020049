-- ===== src/Service/Error.antt =====
-- crates/service/src/lib.rs: `ServiceError`, a status with the error whose text it sends.
use mxfactorial.Types.Errors.{BoxError}

pub data ServiceError (Time : Type 0) : Type 0 where
  bad_request : BoxError Time → ServiceError Time
  not_found : BoxError Time → ServiceError Time
  internal : BoxError Time → ServiceError Time
