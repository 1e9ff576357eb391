-- ===== src/Repository/Sql/Errors.antt =====
-- The repository over SQL under the user service.
use clean_architect.Domain.{Uuid, User, Time, status_deleted}
use clean_architect.Errs.{sentinel, user_not_found}
use clean_architect.Domain.Rows.{row_of, convert_user_to_domain-row_of}
use clean_architect.Repository.Sql.{
  Database, uuid_value, number_value, affected, row, get_by_id, delete,
}
use clean_architect.Common.{
  ℕ, ◌^◌, ◌<◌, ◌≡◌, ◌≢◌, ◌↔◌, inl, inr, Option, some, [], ◌∷◌, arith, nat_eq, Text, txt, text_eq,
}

module _ {B : Type 0} (db : Database B) (format_time : Time → Text)
    (parse_time : Text → Option Time) where
  -- If the row of a user whose status is a byte is what the database fetches by an id, and the layout
  -- reads back what it writes for the user's time of creation, the user itself is returned.
  pub get_by_id-row_of :
      (u : User) (b : B)
      → db.fetch (txt "SELECT * FROM user WHERE id=? LIMIT 1") (uuid_value u.id ∷ []) b
        ≡ row (row_of format_time u)
      → parse_time (format_time u.created_at) ≡ some u.created_at
      → u.status < 2 ^ 8
      → get_by_id db format_time parse_time u.id b ≡ (inr u, b)
  unfolding get_by_id
  get_by_id-row_of u b h k small =
      rw (h, get_by_id)
        (λ i. (inr (convert_user_to_domain-row_of parse_time format_time u k small i), b))

  -- Where the database answers the statement of Delete with a count, Delete leaves the state that the
  -- database leaves; it fails with the error that the user is not found exactly if the count is
  -- zero, and succeeds exactly if it is not.
  pub delete-not_found_iff :
      (id : Uuid) (b b' : B) (n : ℕ)
      → db.exec
          (txt "UPDATE USER SET status=? WHERE id=?")
          (number_value status_deleted ∷ uuid_value id ∷ [])
          b
        ≡ (affected n, b')
      → ((delete db format_time parse_time id b).1 ≡ b')
        × (((delete db format_time parse_time id b).0 ≡ inl (sentinel user_not_found)) ↔ (n ≡ 0))
        × (((delete db format_time parse_time id b).0 ≡ inr tt) ↔ (n ≢ 0))
  unfolding delete
  delete-not_found_iff id b b' n h = (ground (arith, h), ground (arith, h), ground (arith, h))
