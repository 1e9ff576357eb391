-- ===== src/Repository/Mongo/Fields.antt =====
-- Which fields of a user's document the repository writes and reads.
use clean_architect.Domain.{User, Time}
use clean_architect.Errs.{GoError}
use clean_architect.Repository.Mongo.{
  matching, Bson, binary, Document, document, Collection, document_of, user_of, get_by_id, update,
}
use clean_architect.Common.{
  ℕ, zero, suc, ◌*◌, ◌/◌, ◌≡◌, refl, ◌⊎◌, inl, inr, none, [], ◌∷◌, arith, nat_eq, Text, txt,
  text_beq, text_eq, lookup, insert,
}

-- The fields under $set, laid over a document.
abbrev pub set_fields : Document → Document → Document
set_fields [] d = d
set_fields ((field, v) ∷ fields) d = set_fields fields (insert field v d)

-- The documented behaviour of an update that sets other fields than the one it filters by, and that
-- matches a document: the same filter then finds that document with the fields set.
abbrev pub SetsFields : {B : Type 0} → Collection B → Type 0
SetsFields {B} db =
    (field : Text) (v : Bson) (fields d : Document) (b b' : B) (n : ℕ)
    → lookup field fields ≡ none
    → db.find_one field v b ≡ document d
    → db.update_one field v fields b ≡ (inr (suc n), b')
    → db.find_one field v b' ≡ document (set_fields fields d)

-- A time is stored in whole milliseconds.
abbrev pub in_milliseconds : Time → Time
in_milliseconds t = t / 1_000_000 * 1_000_000

-- A success is a document that was matched.
matched_of :
    {B : Type 0} (db : Collection B) (p : (GoError ⊎ ℕ) × B) (b : B)
    → matching db p ≡ (inr tt, b)
    → (m : ℕ) × (p ≡ (inr (suc m), b))
matched_of db (inl err, c) b e = absurd (ground (arith, e))
matched_of db (inr zero, c) b e = absurd (ground (arith, e))
matched_of db (inr (suc m), c) b e = (m, ground (arith, e))

module _ {B : Type 0} (db : Collection B) (sets : SetsFields db) where
  -- If the document that Create makes of `u` is what the id finds, and the collection matches it:
  -- after Update with `user` a read of the id gives `u` with the name, the email and the password of
  -- `user`, with the time of creation cut to milliseconds, and with its old phone number.
  pub update_keeps_phone_number :
      (u user : User) (b b' : B)
      → db.find_one (txt "id") (binary user.id) b ≡ document (document_of u)
      → update db user b ≡ (inr tt, b')
      → (get_by_id db user.id b').0
        ≡ inr (record u {
          name = user.name;
          email = user.email;
          password = user.password;
          created_at = in_milliseconds u.created_at;
        })
  unfolding get_by_id update user_of document_of lookup insert text_beq
  update_keeps_phone_number u user b b' found done =
      let (m, matched) = matched_of db _ b' done in
      rw (sets (txt "id") (binary user.id) _ (document_of u) b b' m refl found matched) refl
