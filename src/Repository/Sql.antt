-- ===== src/Repository/Sql.antt =====
-- internal/repository/user/sql.go: the statements on table user, over a database of package sqlx.
pub mod Errors
use clean_architect.Cache.{Action}
use clean_architect.Common.Int.{ℤ}
use clean_architect.Domain.{
  Uuid, User, UserRow, Time, status_deleted, convert_user_to_domain, convert_users_to_domains,
}
use clean_architect.Errs.{GoError, sentinel, user_not_found}
use clean_architect.Paginate.{Pagination}
use clean_architect.Repository.{UserRepository}
use clean_architect.Sqlutil.{Argument, paginated_list}
use clean_architect.Common.{
  ℕ, ◌*◌, ◌⊎◌, inl, inr, Option, List, [], ◌∷◌, if◌then◌else◌, ◌==◌, nat_eq, Text, txt, text_eq,
  Dict,
}

-- The values that the statements pass.
pub data Value : Type 0 where
  uuid_value : Uuid → Value
  text_value : Text → Value
  number_value : ℕ → Value

-- What ExecContext and RowsAffected, and GetContext, answer; `no_rows` is sql.ErrNoRows.
pub data Executed : Type 0 where
  refused : GoError → Executed
  uncounted : GoError → Executed
  affected : ℕ → Executed

pub data Fetched : Type 0 where
  no_rows : Fetched
  failed : GoError → Fetched
  row : UserRow → Fetched

-- The database: a statement may change it, a query does not.
pub record Database (B : Type 0) : Type 0 where
  pub exec : Text → List Value → B → Executed × B
  pub fetch : Text → List Value → B → Fetched
  pub select : B → Text → List Argument → GoError ⊎ List UserRow
  pub count : B → Text → List Argument → GoError ⊎ ℤ

abbrev pub queryable_fields : Dict Text Text
queryable_fields =
    (txt "id", txt "id")
    ∷ (txt "name", txt "name")
    ∷ (txt "phone", txt "phone")
    ∷ (txt "email", txt "email")
    ∷ (txt "status", txt "status")
    ∷ (txt "role", txt "role")
    ∷ (txt "created_at", txt "created_at")
    ∷ []

abbrev pub insert_statement : Text
insert_statement =
    txt
      "INSERT INTO user\n\t(id,name,phone,email,password,status,role,created_at)\n\tVALUES(?,?,?,?,?,?,?,?)"

abbrev pub update_statement : Text
update_statement = txt "\n\tUPDATE USER\n\tSET name=?, phone=?, email=?, password=?\n\tWHERE id=?"

-- Time.Format and time.Parse with the layout RFC3339 are parameters.
module _ {B : Type 0} (db : Database B) (format_time : Time → Text)
    (parse_time : Text → Option Time) where
  -- Create asks for no count of rows.
  abbrev created : Executed × B → (GoError ⊎ Unit {0}) × B
  created (refused err, b) = (inl err, b)
  created (uncounted err, b) = (inr tt, b)
  created (affected n, b) = (inr tt, b)

  unfoldable pub create : User → Action B (Unit {0})
  create user b = created (
      db.exec insert_statement
        (uuid_value user.id
          ∷ text_value user.name
          ∷ text_value user.phone_number
          ∷ text_value user.email
          ∷ text_value user.password
          ∷ number_value user.status
          ∷ text_value user.role
          ∷ text_value (format_time user.created_at)
          ∷ [])
        b)

  abbrev fetched : Fetched → GoError ⊎ User
  fetched no_rows = inl (sentinel user_not_found)
  fetched (failed err) = inl err
  fetched (row user) = inr (convert_user_to_domain parse_time user)

  unfoldable pub get_by_id : Uuid → Action B User
  unfolding convert_user_to_domain
  get_by_id id b =
      (fetched (db.fetch (txt "SELECT * FROM user WHERE id=? LIMIT 1") (uuid_value id ∷ []) b), b)

  unfoldable pub get_by_email : Text → Action B User
  unfolding convert_user_to_domain
  get_by_email email b = (
    fetched (db.fetch (txt "SELECT * FROM user WHERE email=? LIMIT 1") (text_value email ∷ []) b),
    b,
  )

  abbrev listed : (GoError ⊎ List UserRow) × Pagination → B → (GoError ⊎ List User) × Pagination × B
  listed (inl err, p) b = (inl err, p, b)
  listed (inr users, p) b = (inr (convert_users_to_domains parse_time users), p, b)

  unfoldable pub list : Pagination → B → (GoError ⊎ List User) × Pagination × B
  unfolding paginated_list convert_users_to_domains
  list pagination b =
      listed (paginated_list (db.select b) (db.count b) (txt "user") pagination queryable_fields) b

  -- A statement that has to reach a row.
  abbrev pub reaching : Executed × B → (GoError ⊎ Unit {0}) × B
  reaching (refused err, b) = (inl err, b)
  reaching (uncounted err, b) = (inl err, b)
  reaching (affected n, b) = (if n == 0 then inl (sentinel user_not_found) else inr tt, b)

  unfoldable pub delete : Uuid → Action B (Unit {0})
  delete id b = reaching (
      db.exec (txt "UPDATE USER SET status=? WHERE id=?")
        (number_value status_deleted ∷ uuid_value id ∷ []) b)

  unfoldable pub update : User → Action B (Unit {0})
  update user b = reaching (
      db.exec update_statement
        (text_value user.name
          ∷ text_value user.phone_number
          ∷ text_value user.email
          ∷ text_value user.password
          ∷ uuid_value user.id
          ∷ [])
        b)

  abbrev pub sql_repository : UserRepository B
  sql_repository = record {
    create = create;
    get_by_id = get_by_id;
    get_by_email = get_by_email;
    list = list;
    delete = delete;
    update = update;
  }
