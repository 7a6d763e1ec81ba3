-- ===== src/Gateway/Http.antt =====
-- services/api-gateway/internal/response/response.go, the messages of the auth service as the
-- gateway reads them, and the handlers' view of a request.
use Prim.Native.String.{String}
use analytics_system.Prelude.{ℕ, List, Option, Bool}
use analytics_system.Prelude.Text.{Text}

-- What is written to the client: a status with an error message, or a body that the next handler
-- wrote.
pub data Reply (B : Type 0) : Type 0 where
  failure : ℕ → String → Reply B
  answer : B → Reply B

abbrev pub bad_request : {B : Type 0} → String → Reply B
bad_request msg = failure 400 msg

abbrev pub unauthorized : {B : Type 0} → String → Reply B
unauthorized msg = failure 401 msg

abbrev pub internal_error : {B : Type 0} → String → Reply B
internal_error msg = failure 500 msg

-- `RequestMetadata`, as the gateway reads it.
pub record Metadata : Type 0 where
  pub trace_id : Text
  pub ip_address : Text
  pub user_agent : Text

-- `ValidateTokenResponse`: `ExpiresAt` and `Metadata` may be nil.
pub record ValidateResponse : Type 0 where
  pub valid : Bool
  pub username : Text
  pub roles : List Text
  pub expires_at : Option ℕ
  pub metadata : Option Metadata

-- The part of an `http.Request` that the middleware reads; the header is empty where it is absent.
pub record Request : Type 0 where
  pub verb : Text
  pub path : Text
  pub authorization : Text
  pub remote_addr : Text

-- The values of the context of a request.
pub record Ctx : Type 0 where
  pub user_id : Option Text
  pub roles : Option (List Text)
  pub trace_id : Option Text
  pub ip_address : Option Text
  pub user_agent : Option Text
