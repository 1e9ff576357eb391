-- ===== src/Synq/Refinement.antt =====
-- The methods over any lawful cache, against the database alone.
pub mod Trace
pub mod Async
use clean_architect.Cache.{Duration, Action, Driver, Codec}
use clean_architect.Cache.Lawful.{IsCache}
use clean_architect.Errs.{GoError}
use clean_architect.Synq.{World, get, set, delete}
use clean_architect.Common.{
  ℕ, ◌+◌, ◌≤◌, ◌≡◌, sym, ◌∙◌, ◌⊎◌, inl, inr, false, Option, none, some, List, [], ◌∷◌, arith,
  Bool-cases, ◌==◌, nat_eq, Text, text_beq_iff, text_eq,
}

module _ {S B T : Type 0} (drv : Driver S) (lawful : IsCache drv) (gob : Codec T)
    (value_of : B → Text → GoError ⊎ T) where
  -- Whatever the cache holds of a key, now or later, is what the database answers for it.
  abbrev pub IsCoherent : ℕ → B → S → Type 0
  IsCoherent now b s =
      (later : ℕ) (key bytes : Text)
      → now ≤ later
      → lawful.seen later s key ≡ some bytes
      → gob.decode bytes ≡ value_of b key

  -- The database's answer to a read of `key`, which changes nothing.
  abbrev pub reading : Text → Action B T
  reading key b = (value_of b key, b)

  get-IsCoherent :
      (start now : ℕ) (key : Text) (b : B) (s : S)
      → start ≤ now
      → IsCoherent start b s
      → IsCoherent now b (drv.get now key s).1
  get-IsCoherent start now key b s le h later j bytes le' e =
      h later j bytes (omega arith) (sym (lawful.get_keeps now later key j s le') ∙ e)

  -- What is coherent but perhaps for one key.
  abbrev IsCoherentBut : Text → ℕ → B → S → Type 0
  IsCoherentBut key now b s =
      (j : Text)
      → (key == j) ≡ false
      → (later : ℕ) (bytes : Text) → now ≤ later
      → lawful.seen later s j ≡ some bytes
      → gob.decode bytes ≡ value_of b j

  set-IsCoherent :
      (now : ℕ) (key bytes : Text) (ttl : Duration) (b : B) (s : S)
      → gob.decode bytes ≡ value_of b key
      → IsCoherentBut key now b s
      → IsCoherent now b (drv.set now key bytes ttl s).1
  set-IsCoherent now key bytes ttl b s d h later j other le e = elim (Bool-cases (key == j)) [
    | inl same ↦
        let p : key ≡ j = (text_beq_iff key j).0 same in
        elim (lawful.set_self now later key bytes ttl s) [ inl q ↦ cc | inr q ↦ cc ]
    | inr differs ↦
        h j differs later other le (sym (lawful.set_other now later key j bytes ttl s differs) ∙ e)
  ]

  delete-IsCoherent :
      (now : ℕ) (key : Text) (b : B) (s : S)
      → IsCoherentBut key now b s
      → IsCoherent now b (drv.delete now key s).1
  delete-IsCoherent now key b s h later j other le e = elim (Bool-cases (key == j)) [
    | inl same ↦
        let p : key ≡ j = (text_beq_iff key j).0 same in
        let q = lawful.delete_self now later key s in cc
    | inr differs ↦
        h j differs later other le (sym (lawful.delete_other now later key j s differs) ∙ e)
  ]

  -- The database answers as before.
  abbrev SameValues : B → B → Type 0
  SameValues b b' = (j : Text) → value_of b' j ≡ value_of b j

  -- It answers as before for every other key.
  abbrev SameElsewhere : Text → B → B → Type 0
  SameElsewhere key b b' = (j : Text) → (key == j) ≡ false → value_of b' j ≡ value_of b j

  -- What a call that sets a key does to the database, and one that deletes it; if it fails it changes
  -- nothing.
  abbrev pub Sets : Text → T → B → (GoError ⊎ (Unit {0})) × B → Type 0
  Sets key value b (inl err, b') = SameValues b b'
  Sets key value b (inr _, b') = (value_of b' key ≡ inr value) × SameElsewhere key b b'

  abbrev pub Deletes : Text → B → (GoError ⊎ (Unit {0})) × B → Type 0
  Deletes key b (inl err, b') = SameValues b b'
  Deletes key b (inr _, b') = SameElsewhere key b b'

  unchanged-IsCoherent :
      (start now : ℕ) (b b' : B) (s : S)
      → start ≤ now
      → SameValues b b'
      → IsCoherent start b s
      → IsCoherent now b' s
  unchanged-IsCoherent start now b b' s le same h later j bytes le' e =
      h later j bytes (omega arith) e ∙ sym (same j)

  elsewhere-IsCoherentBut :
      (start now : ℕ) (key : Text) (b b' : B) (s : S)
      → start ≤ now
      → SameElsewhere key b b'
      → IsCoherent start b s
      → IsCoherentBut key now b' s
  elsewhere-IsCoherentBut start now key b b' s le same h j differs later bytes le' e =
      h later j bytes (omega arith) e ∙ sym (same j differs)

-- A call of one of the three methods, after a pause.
pub data Op (B T : Type 0) : Type 0 where
  get_op : ℕ → Text → Duration → Op B T
  set_op : ℕ → Text → T → Action B (Unit {0}) → Duration → Op B T
  delete_op : ℕ → Text → Action B (Unit {0}) → Op B T

abbrev pub Answer : Type 0 → Type 0
Answer T = GoError ⊎ Option T

abbrev pub got : {T W : Type 0} → (GoError ⊎ T) × W → Answer T × W
got (inl err, w) = (inl err, w)
got (inr v, w) = (inr (some v), w)

abbrev pub written : {T W : Type 0} → (GoError ⊎ (Unit {0})) × W → Answer T × W
written (inl err, w) = (inl err, w)
written (inr _, w) = (inr none, w)

module _ {S B T : Type 0} (drv : Driver S) (gob : Codec T) (value_of : B → Text → GoError ⊎ T) where
  -- The calls through the cache, from a time on.
  pub run : ℕ → List (Op B T) → World S B T → List (Answer T) × B
  unfolding get set delete
  run now [] w = ([], w.db)
  run now (get_op pause key ttl ∷ ops) w =
      let (a, w') = got (get drv gob (now + pause) key (λ b. (value_of b key, b)) ttl w) in
      let (answers, b) = run (now + pause) ops w' in (a ∷ answers, b)
  run now (set_op pause key value write ttl ∷ ops) w =
      let (a, w') = written (set drv gob (now + pause) key value write ttl w) in
      let (answers, b) = run (now + pause) ops w' in (a ∷ answers, b)
  run now (delete_op pause key write ∷ ops) w =
      let (a, w') = written (delete drv gob (now + pause) key write w) in
      let (answers, b) = run (now + pause) ops w' in (a ∷ answers, b)

module _ {B T : Type 0} (value_of : B → Text → GoError ⊎ T) where
  -- The same calls of the database alone.
  pub run_directly : List (Op B T) → B → List (Answer T) × B
  run_directly [] b = ([], b)
  run_directly (get_op pause key ttl ∷ ops) b =
      let (a, b') = got (value_of b key, b) in
      let (answers, b'') = run_directly ops b' in (a ∷ answers, b'')
  run_directly (set_op pause key value write ttl ∷ ops) b =
      let (a, b') = written (write b) in
      let (answers, b'') = run_directly ops b' in (a ∷ answers, b'')
  run_directly (delete_op pause key write ∷ ops) b =
      let (a, b') = written (write b) in
      let (answers, b'') = run_directly ops b' in (a ∷ answers, b'')
