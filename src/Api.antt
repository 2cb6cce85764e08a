-- ===== src/Api.antt =====
-- app/api/routers: requests that change the tables, and how they are answered.
pub mod Table
pub mod Shipping
pub mod Replies
pub mod Accounts
pub mod RiskLogs
use xianyu_manager.Prelude.{String}

-- The `HTTPException` of a request, by its status code, with its detail. The connection rolls back what
-- a request had changed when it raises.
pub data Failure : Type 0 where
  bad_request forbidden not_found conflict unprocessable bad_gateway : String → Failure

pub data Answer {ℓ} (A : Type ℓ) : Type ℓ where
  refused : Failure → Answer A
  answered : A → Answer A
