-- ===== src/Roundtable.antt =====
-- The bus between handlers (haysel/roundtable/src): its messages. A description is a number; what is asked and
-- answered are the parameters `A` and `R`, whose dynamic types are taken to match.
pub mod Runtime
pub mod Interface
pub mod Query
pub mod Shutdown
mod Tests
use hayselnut.Common.{ℕ, Option, none, some, Bool, true, false}

pub record MethodId : Type 0 where
  pub id : ℕ
  pub id_desc : ℕ

pub record HandlerType : Type 0 where
  pub id : ℕ
  pub id_desc : ℕ

pub record HandlerInstance : Type 0 where
  pub typ : HandlerType
  pub discriminant : ℕ
  pub discriminant_desc : ℕ

pub data Target : Type 0 where
  instance_ : HandlerInstance → Target
  type_ : HandlerType → Target
  any : Target

-- `Result<DynVar, ResponseErr>`
pub data Response (R : Type 0) : Type 0 where
  resp_ok : R → Response R
  response_err : Response R

-- The value that was put, and whether the waker was signalled.
pub data Responder (R : Type 0) : Type 0 where
  no_verify : Responder R
  verify : Bool → Responder R
  respond : Option (Response R) → Bool → Responder R

pub record Request (A : Type 0) : Type 0 where
  pub source : HandlerInstance
  pub target : Target
  pub method : MethodId
  pub arguments : A
