-- ===== src/Errs/Statuses.antt =====
-- The two tables of `ErrorCode` agree.
use clean_architect.Common.{ℕ, ◌≤◌, ◌<◌, ◌≡◌, ◌↔◌, ◌⊎◌, arith, nat_eq, text_eq}
use clean_architect.Errs.{
  ErrorCode, http_status, grpc_status, GrpcCode, unauthenticated, permission_denied, not_found,
  already_exists, invalid_argument, internal,
}

-- The HTTP status that belongs to a gRPC code, as gRPC-gateway documents it.
abbrev pub gateway_status : GrpcCode → ℕ
gateway_status unauthenticated = 401
gateway_status permission_denied = 403
gateway_status not_found = 404
gateway_status already_exists = 409
gateway_status invalid_argument = 400
gateway_status internal = 500

-- For every code, defined or not, the HTTP status is the one that belongs to the gRPC code; it lies
-- from 400 to 500; and it is 500 exactly for the codes outside 1 to 5.
pub http_status-grpc_status :
    (e : ErrorCode)
    → (http_status e ≡ gateway_status (grpc_status e))
      × (400 ≤ http_status e)
      × (http_status e ≤ 500)
      × ((http_status e ≡ 500) ↔ ((e ≡ 0) ⊎ (5 < e)))
unfolding http_status grpc_status
http_status-grpc_status e = ground arith
