-- ===== src/Grpc.antt =====
-- pkg/interceptor and api/grpc: handlers of calls around handlers.
pub mod Recovering
use clean_architect.Domain.{Auth, Uuid, Time, User}
use clean_architect.Errs.{GoError, GrpcCode, unauthenticated, internal, message}
use clean_architect.Service.Credentials.{Hasher, Outcome, returned, panicked, register}
use clean_architect.Service.Users.{Deps}
use clean_architect.Synq.{World}
use clean_architect.Common.{◌⊎◌, inl, inr, List, [], ◌∷◌, ◌++◌, nat_eq, Text, txt, text_eq}

-- An error of package status.
pub record StatusError : Type 0 where
  pub code : GrpcCode
  pub text : Text

-- A call answers, or it panics.
pub data Answer (A : Type 0) : Type 0 where
  answered : StatusError ⊎ A → Answer A
  crashed : Answer A

-- grpc.UnaryHandler, with the values of the metadata `authorization`, over a state `W`.
abbrev pub UnaryHandler : Type 0 → Type 0 → Type 0 → Type 0
UnaryHandler Q A W = List Text → Q → W → Answer A × W

abbrev pub recovered : {A W : Type 0} → (W → W) → Answer A × W → Answer A × W
recovered log (answered r, s) = (answered r, s)
recovered log (crashed, s) =
    (answered (inl (record { code = internal; text = txt "internal server error" })), log s)

module _ {Q A W : Type 0} where
  -- Recovery; `log` is the line that is printed of a panic.
  unfoldable pub recovery : (W → W) → UnaryHandler Q A W → UnaryHandler Q A W
  recovery log handler authorization req s = recovered log (handler authorization req s)

  -- ResponseTimeMeter: the line is printed in a deferred function, after a panic too.
  unfoldable pub response_time_meter : (W → W) → UnaryHandler Q A W → UnaryHandler Q A W
  response_time_meter log handler authorization req s =
      let (r, s') = handler authorization req s in (r, log s')

  -- DenyUnauthorizedClient
  unfoldable pub deny_unauthorized_client : UnaryHandler Q A W → UnaryHandler Q A W
  deny_unauthorized_client handler [] req s =
      (answered (inl (record { code = unauthenticated; text = txt "unauthorized" })), s)
  deny_unauthorized_client handler (v ∷ vs) req s = handler (v ∷ vs) req s

module _ {S B : Type 0} (deps : Deps S B) (hasher : Hasher) where
  unfoldable pub registered :
      Outcome (Unit {0}) × World S B User → Answer (Unit {0}) × World S B User
  unfolding message
  registered (panicked, w) = (crashed, w)
  registered (returned (inl err), w) = (
    answered (inl (record { code = internal; text = txt "failed to register: " ++ message err })),
    w,
  )
  registered (returned (inr _), w) = (answered (inr tt), w)

  -- Register of authService; the id and the time are those that the service gives the user.
  unfoldable pub register_call : Uuid → Time → UnaryHandler Auth (Unit {0}) (World S B User)
  unfolding register registered
  register_call id now authorization auth w = registered (register deps hasher id now auth w)
