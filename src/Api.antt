-- ===== src/Api.antt =====
-- The HTTP clients: mobile/lib/api.ts and web/lib/api.ts. What `fetch` answers is a parameter.
pub mod Errors
pub mod Mobile
pub mod Attempts
pub mod Retries
pub mod Offline
pub mod WebRetries
pub mod Upload
pub mod Stored
pub mod Web
use thassa.Base.{ℕ, Text, Option}

-- What a call throws: the connection fails, the server answers with an error status and, in its
-- body, perhaps a text of its own, or an `Error` with a message.
pub data Thrown : Type 0 where
  network_error : Thrown
  api_error : ℕ → Option Text → Thrown
  other_error : Text → Thrown

-- How an asynchronous call ends.
pub data Outcome {ℓ} (A : Type ℓ) : Type ℓ where
  returns : A → Outcome A
  throws : Thrown → Outcome A
