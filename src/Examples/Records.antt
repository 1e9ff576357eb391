-- ===== src/Examples/Records.antt =====
-- Rows and documents of databases, and a call over gRPC.
use clean_architect.Domain.{User}
use clean_architect.Errs.{GoError, internal}
use clean_architect.Repository.Mongo.{
  Bson, binary, string, int, date, Document, document, no_documents, Collection, document_of,
  get_by_id, update,
}
use clean_architect.Repository.Mongo.Fields.{
  set_fields, SetsFields, in_milliseconds, update_keeps_phone_number,
}
use clean_architect.Grpc.{answered}
use clean_architect.Grpc.Recovering.{chained, register_call-answers}
use clean_architect.Service.Credentials.{returned, register}
use clean_architect.Examples.{alice, deps, world, hasher, credentials}
use mathlib.Core.Path.{subst}
use clean_architect.Common.{
  ℕ, ◌≡◌, refl, ap, ◌∙◌, ◌≢◌, ◌⊎◌, inl, inr, Bool, false, Option, none, some, [], ◌∷◌, arith,
  nat_beq, if◌then◌else◌, Bool-cases, ◌==◌, nat_eq, Text, txt, text_beq, text_eq, lookup, insert,
  lookup-insert,
}

-- A collection with one document.
abbrev bson_beq : Bson → Bson → Bool
bson_beq (binary a) (binary b) = nat_beq a b
bson_beq (string a) (string b) = a == b
bson_beq (int a) (int b) = nat_beq a b
bson_beq (date a) (date b) = nat_beq a b
bson_beq _ _ = false

abbrev holds : Option Bson → Bson → Bool
holds none v = false
holds (some w) v = bson_beq w v

abbrev single : Collection Document
single = record {
  insert_one = λ d. λ b. (inr tt, d);
  find_one = λ field. λ v. λ b. if holds (lookup field b) v then document b else no_documents;
  find = λ filter. λ b. inr (b ∷ []);
  update_one = λ field. λ v.
      λ fields. λ b. if holds (lookup field b) v then (inr 1, set_fields fields b) else (inr 0, b);
}

lookup-set_fields :
    (field : Text) (fields d : Document)
    → lookup field fields ≡ none
    → lookup field (set_fields fields d) ≡ lookup field d
unfolding lookup
lookup-set_fields field [] d e = refl
lookup-set_fields field ((other, v) ∷ fields) d e = elim (Bool-cases (other == field)) [
  | inl same ↦ absurd (ground (arith, e, same))
  | inr differs ↦
      lookup-set_fields field fields (insert other v d) (rw differs at e)
      ∙ (lookup-insert other field v d ∙ rw differs refl)
]

found_same : {b d : Document} → document b ≡ document d → b ≡ d
found_same e = cc

stored_same :
    {m n : ℕ} {b d : Document} → ◌≡◌ {A = (GoError ⊎ ℕ) × Document} (inr m, b) (inr n, d) → b ≡ d
stored_same e = ap (λ p. p.1) e

single-SetsFields : SetsFields single
single-SetsFields field v fields d b b' n free found matched =
    elim (Bool-cases (holds (lookup field b) v)) [
      | inr e ↦ absurd (ground (arith, rw e at found))
      | inl e ↦
          let same = found_same (rw e at found) in
          let after = stored_same (rw e at matched) in
          subst (λ x. single.find_one field v x ≡ document (set_fields fields d)) after
            (rw (lookup-set_fields field fields b free, e)
              (ap (λ x. document (set_fields fields x)) same))
    ]

abbrev renamed : User
renamed = record alice { name = txt "alicia"; phone_number = txt "+32" }

update_keeps_phone_number_example :
    (get_by_id single 1 (
      set_fields
        ((txt "name", string (txt "alicia"))
          ∷ (txt "phone_number", string (txt "+32"))
          ∷ (txt "email", string alice.email)
          ∷ (txt "password", string alice.password)
          ∷ [])
        (document_of alice))).0
    ≡ inr (record alice {
      name = txt "alicia";
      email = alice.email;
      password = alice.password;
      created_at = in_milliseconds 5;
    })
unfolding update lookup text_beq document_of
update_keeps_phone_number_example =
    update_keeps_phone_number single single-SetsFields alice renamed (document_of alice) _ refl refl

register_call-answers_example :
    (((register deps hasher 7 5 credentials world).0 ≡ returned (inr tt))
      × ((chained deps hasher (λ w. w) (λ w. w) 7 5 [] credentials world).0 ≡ answered (inr tt)))
    ⊎ (((register deps hasher 7 5 credentials world).0 ≢ returned (inr tt))
        × ((t : Text) × ((chained deps hasher (λ w. w) (λ w. w) 7 5 [] credentials world).0
              ≡ answered (inl (record { code = internal; text = t })))))
register_call-answers_example =
    register_call-answers deps hasher (λ w. w) (λ w. w) 7 5 [] credentials world
