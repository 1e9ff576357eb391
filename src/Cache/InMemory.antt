-- ===== src/Cache/InMemory.antt =====
-- pkg/cache/in-memory.go: a map of items, each with the time at which it expires.
pub mod Laws
use clean_architect.Common.Int.{pos, negsuc}
use clean_architect.Cache.{Duration, Action, Driver}
use clean_architect.Errs.{GoError, sentinel, cache_missed}
use clean_architect.Common.{
  ℕ, zero, suc, ◌+◌, inl, inr, Bool, not, ◌&&◌, none, some, ltb, if◌then◌else◌, ◌==◌, nat_eq, Text,
  text_eq, Dict, lookup, insert, remove,
}

-- `expires_at` 0 is the zero time: the item does not expire.
pub record Item : Type 0 where
  pub content : Text
  pub expires_at : ℕ

abbrev pub Store : Type 0
Store = Dict Text Item

-- exp: time.Now().Add(ttl) for a positive ttl, else the zero time.
unfoldable pub expiry : ℕ → Duration → ℕ
expiry now (pos zero) = 0
expiry now (pos (suc n)) = now + suc n
expiry now (negsuc n) = 0

unfoldable pub set : ℕ → Text → Text → Duration → Action Store (Unit {0})
unfolding expiry insert
set now key content ttl s =
    (inr tt, insert key (record { content = content; expires_at = expiry now ttl }) s)

unfoldable pub delete : ℕ → Text → Action Store (Unit {0})
unfolding remove
delete now key s = (inr tt, remove key s)

-- !itm.expiresAt.IsZero() && time.Now().After(itm.expiresAt)
unfoldable pub is_expired : ℕ → Item → Bool
is_expired now itm = not (itm.expires_at == 0) && ltb itm.expires_at now

unfoldable pub get : ℕ → Text → Action Store Text
unfolding lookup is_expired delete
get now key s = elim (lookup key s) [
  | none ↦ (inl (sentinel cache_missed), s)
  | some itm ↦
      if is_expired now itm
      then (inl (sentinel cache_missed), (delete now key s).1)
      else (inr itm.content, s)
]

-- NewInMemoryDriver
abbrev pub driver : Driver Store
driver = record { set = set; get = get; delete = delete }
