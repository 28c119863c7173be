-- ===== src/Gateway.antt =====
-- internal/gateway: the request's context, the reply, and how a middleware stands before a handler.
-- The middlewares are in the modules below, in the order in which cmd/gateway/main.go wraps them.
pub mod Headers
pub mod Auth
pub mod Admission
pub mod Route
pub mod Idempotency
pub mod Metering
pub mod Chain
pub mod Serve
pub mod Served
pub mod Sound
use quarkgate.Models.{DownstreamRequest, Envelope, QuarkGateKey, RouteMatch, Uuid}
use quarkgate.Prelude.{Dict, List, Option, Text, [], codes, ℕ, ℤ, ◌∷◌}
use quarkgate.World.{World}

-- What the middlewares put into the context of a request, each with what the getter gives where
-- nothing was put.
pub record Context : Type 0 where
  pub request_id : Uuid
  pub user_id : Uuid
  pub key_id : Uuid
  pub key : Option QuarkGateKey
  pub route : Option RouteMatch
  pub hold_micro : ℤ
  pub trace_id : Text
  pub envelope : Option Envelope
  pub downstream : Option DownstreamRequest
  pub idempotency_key : Text
  pub credential : Text
  pub base_url : Text

-- A call of `Header().Set` or `Header().Add` on the writer of a response.
pub data HeaderCall : Type 0 where
  set_header add_header : Text → Text → HeaderCall

-- A request, with the headers that the gateway reads, and the calls that were made on the header of
-- its writer before it came here.
pub record Request : Type 0 where
  pub method : Text
  pub path : Text
  pub authorization : Text
  pub idempotency_header : Text
  pub trace_header : Text
  pub body : Text
  pub written : List HeaderCall
  pub context : Context

-- A reply, with the calls that set its headers, in their order.
pub record Reply : Type 0 where
  pub status : ℕ
  pub headers : List HeaderCall
  pub body : Text

abbrev pub Handler : Type 0
Handler = Request → World → Reply × World

-- What a middleware decides before the next handler: a reply of its own, or the request to pass on.
pub data Decision : Type 0 where
  refuse : Reply → Decision
  pass : Request → Decision

abbrev pub Gate : Type 0
Gate = Request → World → Decision × World

-- writeJSON, with the encoder as a parameter
unfoldable pub write_json : (Dict Text Text → Text) → ℕ → Dict Text Text → Reply
write_json encode code fields = record {
  status = code;
  headers = set_header (codes "Content-Type") (codes "application/json") ∷ [];
  body = encode fields;
}

-- `writeJSON(w, code, {"error": …})`
abbrev pub refuse_with : (Dict Text Text → Text) → ℕ → Text → Decision
refuse_with encode code message = refuse (write_json encode code ((codes "error", message) ∷ []))

unfoldable pub decide : Handler → Decision → Handler
decide next (refuse reply) r w = (reply, w)
decide next (pass r') r w = next r' w

-- Wrap
unfoldable pub wrap : Gate → Handler → Handler
wrap gate next r w = decide next (gate r w).0 r (gate r w).1
