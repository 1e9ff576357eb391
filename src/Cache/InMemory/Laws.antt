-- ===== src/Cache/InMemory/Laws.antt =====
-- What a client sees of the in-memory driver.
use clean_architect.Common.Int.{pos, negsuc}
use clean_architect.Cache.{Duration}
use clean_architect.Cache.InMemory.{Item, Store, set, get, delete, is_expired}
use clean_architect.Errs.{GoError, sentinel, cache_missed}
use clean_architect.Common.{
  ℕ, zero, suc, ◌+◌, ◌≤◌, ◌≡◌, refl, ◌⊎◌, inl, inr, Bool, true, false, Option, none, some, arith,
  ltb, if◌then◌else◌, Bool-cases, Option-cases, ◌==◌, nat_eq, Text, text_beq_iff, text_eq, lookup,
  lookup-insert, lookup-remove,
}

-- The bytes that a client can read under a key at a time.
unfoldable pub view : ℕ → Store → Text → Option Text
view now s key = elim (lookup key s) [
  | none ↦ none
  | some itm ↦ if is_expired now itm then none else some itm.content
]

abbrev pub answer : Option Text → GoError ⊎ Text
answer none = inl (sentinel cache_missed)
answer (some content) = inr content

-- Whether a value set at `now` for `ttl` is gone at `later`.
abbrev pub is_over : ℕ → ℕ → Duration → Bool
is_over now later (pos zero) = false
is_over now later (pos (suc n)) = ltb (now + suc n) later
is_over now later (negsuc n) = false

pub get-view : (now : ℕ) (key : Text) (s : Store) → (get now key s).0 ≡ answer (view now s key)
unfolding get view
get-view now key s = ground arith

pub view-set :
    (now later : ℕ) (k j : Text) (content : Text) (ttl : Duration) (s : Store)
    → view later (set now k content ttl s).1 j
      ≡ (if k == j then (if is_over now later ttl then none else some content) else view later s j)
unfolding view set is_expired
view-set now later k j content (pos zero) s =
    ground (arith, lookup-insert k j (record { content = content; expires_at = 0 }) s)
view-set now later k j content (pos (suc n)) s =
    ground (arith, lookup-insert k j (record { content = content; expires_at = now + suc n }) s)
view-set now later k j content (negsuc n) s =
    ground (arith, lookup-insert k j (record { content = content; expires_at = 0 }) s)

pub view-delete :
    (now later : ℕ) (k j : Text) (s : Store)
    → view later (delete now k s).1 j ≡ (if k == j then none else view later s j)
unfolding view delete
view-delete now later k j s = ground (arith, lookup-remove k j s)

is_expired_mono :
    (now later : ℕ) (itm : Item)
    → now ≤ later
    → is_expired now itm ≡ true
    → is_expired later itm ≡ true
unfolding is_expired
is_expired_mono now later itm h e = ground arith

-- Dropping an expired item changes nothing that can be read then or later.
pub view-get :
    (now later : ℕ) (k j : Text) (s : Store)
    → now ≤ later
    → view later (get now k s).1 j ≡ view later s j
unfolding view get delete
view-get now later k j s h = elim (Option-cases (lookup k s)) [
  | inl e ↦ rw (e, get) refl
  | inr (itm, e) ↦ elim (Bool-cases (is_expired now itm)) [
    | inl x ↦ ground (arith, lookup-remove k j s, text_beq_iff k j, is_expired_mono now later itm)
    | inr x ↦ rw (e, get) (rw x refl)
  ]
]

-- A value set for `ttl` is what a read of its key gives until the ttl is over, for ever if the ttl
-- is not positive, and a miss after that; a read of another key is not changed.
pub get-set :
    (now later : ℕ) (k j : Text) (content : Text) (ttl : Duration) (s : Store)
    → (get later j (set now k content ttl s).1).0 ≡ (
        if k == j
        then answer (if is_over now later ttl then none else some content)
        else (get later j s).0)
get-set now later k j content ttl s =
    rw
      (
        get-view later j (set now k content ttl s).1,
        view-set now later k j content ttl s,
        get-view later j s,
      )
      (ground arith)

-- After a delete a read of the key is a miss, and a read of another key is not changed.
pub get-delete :
    (now later : ℕ) (k j : Text) (s : Store)
    → (get later j (delete now k s).1).0
      ≡ (if k == j then inl (sentinel cache_missed) else (get later j s).0)
get-delete now later k j s =
    rw (get-view later j (delete now k s).1, view-delete now later k j s, get-view later j s)
      (ground arith)

-- A read, which may drop an expired item, changes no answer of a read at that time or later.
pub get-get :
    (now later : ℕ) (k j : Text) (s : Store)
    → now ≤ later
    → (get later j (get now k s).1).0 ≡ (get later j s).0
get-get now later k j s h =
    rw (get-view later j (get now k s).1, view-get now later k j s h, get-view later j s)
