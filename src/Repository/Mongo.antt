-- ===== src/Repository/Mongo.antt =====
-- internal/repository/user/mongo.go: users as documents of a collection.
pub mod Fields
use clean_architect.Cache.{Action}
use clean_architect.Domain.{Uuid, User, Time, status_deleted}
use clean_architect.Errs.{GoError, sentinel, user_not_found}
use clean_architect.Paginate.{Pagination}
use clean_architect.Repository.{UserRepository}
use clean_architect.Common.{
  ℕ, ◌*◌, ◌/◌, ◌⊎◌, inl, inr, Option, none, some, List, [], ◌∷◌, map, if◌then◌else◌, ◌==◌, nat_eq,
  Text, txt, text_eq, Dict, lookup,
}

-- The values of BSON that a user's fields become; a date holds milliseconds.
pub data Bson : Type 0 where
  binary : Uuid → Bson
  string : Text → Bson
  int : ℕ → Bson
  date : ℕ → Bson

abbrev pub Document : Type 0
Document = Dict Text Bson

-- What FindOne and Decode answer; `no_documents` is mongo.ErrNoDocuments.
pub data Found : Type 0 where
  no_documents : Found
  failed : GoError → Found
  document : Document → Found

-- The collection `user`. A filter is one field with its value; `find` is Find and All, with the filter
-- `none` for nil; `update_one` takes what stands under $set and answers MatchedCount.
pub record Collection (B : Type 0) : Type 0 where
  pub insert_one : Document → Action B (Unit {0})
  pub find_one : Text → Bson → B → Found
  pub find : Option (Text × Bson) → B → GoError ⊎ List Document
  pub update_one : Text → Bson → Document → Action B ℕ

-- The bson encoding of domain.User, whose fields have no tags: the names of the fields in lower case.
unfoldable pub document_of : User → Document
document_of user =
    (txt "id", binary user.id)
    ∷ (txt "name", string user.name)
    ∷ (txt "phonenumber", string user.phone_number)
    ∷ (txt "email", string user.email)
    ∷ (txt "password", string user.password)
    ∷ (txt "status", int user.status)
    ∷ (txt "role", string user.role)
    ∷ (txt "createdat", date (user.created_at / 1_000_000))
    ∷ []

-- A field that is missing, or of another kind, is read as the zero value.
abbrev binary_of : Option Bson → Uuid
binary_of (some (binary id)) = id
binary_of _ = 0

abbrev string_of : Option Bson → Text
string_of (some (string t)) = t
string_of _ = []

abbrev int_of : Option Bson → ℕ
int_of (some (int n)) = n
int_of _ = 0

abbrev date_of : Option Bson → Time
date_of (some (date ms)) = ms * 1_000_000
date_of _ = 0

unfoldable pub user_of : Document → User
unfolding lookup
user_of d = record {
  id = binary_of (lookup (txt "id") d);
  name = string_of (lookup (txt "name") d);
  phone_number = string_of (lookup (txt "phonenumber") d);
  email = string_of (lookup (txt "email") d);
  password = string_of (lookup (txt "password") d);
  status = int_of (lookup (txt "status") d);
  role = string_of (lookup (txt "role") d);
  created_at = date_of (lookup (txt "createdat") d);
}

module _ {B : Type 0} (db : Collection B) where
  -- Create
  unfoldable pub create : User → Action B (Unit {0})
  unfolding document_of
  create user b = db.insert_one (document_of user) b

  abbrev fetched : Found → GoError ⊎ User
  unfolding user_of
  fetched no_documents = inl (sentinel user_not_found)
  fetched (failed err) = inl err
  fetched (document d) = inr (user_of d)

  -- GetByID
  unfoldable pub get_by_id : Uuid → Action B User
  unfolding user_of
  get_by_id id b = (fetched (db.find_one (txt "id") (binary id) b), b)

  -- GetByEmail
  unfoldable pub get_by_email : Text → Action B User
  unfolding user_of
  get_by_email email b = (fetched (db.find_one (txt "email") (string email) b), b)

  -- List: with a nil filter, and without the pagination.
  unfoldable pub list : Pagination → B → (GoError ⊎ List User) × Pagination × B
  unfolding user_of
  list pagination b = elim (db.find none b) [
    | inl err ↦ (inl err, pagination, b)
    | inr documents ↦ (inr (map user_of documents), pagination, b)
  ]

  abbrev pub matching : (GoError ⊎ ℕ) × B → (GoError ⊎ (Unit {0})) × B
  matching (inl err, b) = (inl err, b)
  matching (inr n, b) = (if n == 0 then inl (sentinel user_not_found) else inr tt, b)

  -- Delete
  unfoldable pub delete : Uuid → Action B (Unit {0})
  delete id b =
      matching (db.update_one (txt "id") (binary id) ((txt "status", int status_deleted) ∷ []) b)

  -- Update
  unfoldable pub update : User → Action B (Unit {0})
  update user b = matching (
      db.update_one (txt "id") (binary user.id)
        ((txt "name", string user.name)
          ∷ (txt "phone_number", string user.phone_number)
          ∷ (txt "email", string user.email)
          ∷ (txt "password", string user.password)
          ∷ [])
        b)

  -- NewUserMongoRepository
  unfoldable mongo_repository : UserRepository B
  unfolding create get_by_id get_by_email list delete update
  mongo_repository = record {
    create = create;
    get_by_id = get_by_id;
    get_by_email = get_by_email;
    list = list;
    delete = delete;
    update = update;
  }
