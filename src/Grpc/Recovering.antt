-- ===== src/Grpc/Recovering.antt =====
-- What a caller of Register is answered.
use clean_architect.Domain.{Auth, Uuid, Time, User}
use clean_architect.Errs.{internal}
use clean_architect.Service.Credentials.{Hasher, Outcome, returned, panicked, register}
use clean_architect.Service.Users.{Deps}
use clean_architect.Synq.{World}
use clean_architect.Grpc.{
  recovered, registered, answered, UnaryHandler, recovery, response_time_meter, register_call,
}
use clean_architect.Common.{◌≡◌, refl, ◌≢◌, ◌⊎◌, inl, inr, List, nat_eq, Text, text_eq}

module _ {S B : Type 0} (deps : Deps S B) (hasher : Hasher)
    (log meter : World S B User → World S B User) where
  -- The chain of interceptors that cmd/app puts around Register.
  abbrev pub chained : Uuid → Time → UnaryHandler Auth (Unit {0}) (World S B User)
  unfolding recovery response_time_meter register_call
  chained id now = response_time_meter meter (recovery log (register_call deps hasher id now))

  answers_of :
      (p : Outcome (Unit {0}) × World S B User)
      → ((p.0 ≡ returned (inr tt))
          × ((recovered log (registered deps hasher p)).0 ≡ answered (inr tt)))
        ⊎ ((p.0 ≢ returned (inr tt))
            × ((t : Text) × ((recovered log (registered deps hasher p)).0
                  ≡ answered (inl (record { code = internal; text = t })))))
  unfolding registered
  answers_of (panicked, w) = inr (λ e. cc, (_, refl))
  answers_of (returned (inl err), w) = inr (λ e. cc, (_, refl))
  answers_of (returned (inr _), w) = inl (refl, refl)

  -- Through the two interceptors a call of Register never panics: it is answered with success exactly
  -- if the service registers the user, and otherwise with the code Internal, a user that exists
  -- already and a panic of the service included.
  pub register_call-answers :
      (id : Uuid) (now : Time) (authorization : List Text) (auth : Auth) (w : World S B User)
      → (((register deps hasher id now auth w).0 ≡ returned (inr tt))
          × ((chained id now authorization auth w).0 ≡ answered (inr tt)))
        ⊎ (((register deps hasher id now auth w).0 ≢ returned (inr tt))
            × ((t : Text) × ((chained id now authorization auth w).0
                  ≡ answered (inl (record { code = internal; text = t })))))
  unfolding recovery response_time_meter register_call
  register_call-answers id now authorization auth w =
      answers_of (register deps hasher id now auth w)
