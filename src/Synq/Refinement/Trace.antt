-- ===== src/Synq/Refinement/Trace.antt =====
-- No sequence of calls tells the methods over a lawful cache from the database alone.
use clean_architect.Synq.Refinement.{
  written, got, IsCoherent, get-IsCoherent, set-IsCoherent, delete-IsCoherent, Sets, Deletes,
  unchanged-IsCoherent, elsewhere-IsCoherentBut, Op, get_op, set_op, delete_op, run, run_directly,
  Answer,
}
use clean_architect.Cache.{Duration, Action, Driver, Codec}
use clean_architect.Cache.Lawful.{IsCache}
use clean_architect.Errs.{GoError, sentinel, cache_missed}
use clean_architect.Synq.{World, get, set, delete}
use clean_architect.Common.{
  ℕ, ◌+◌, ◌≤◌, ◌≡◌, refl, sym, ap, ◌∙◌, ◌⊎◌, inl, inr, List, [], ◌∷◌, arith, Option-cases,
  Sum-cases, nat_eq, All, Text, text_eq,
}
use clean_architect.Cache

module _ {S B T : Type 0} (drv : Driver S) (lawful : IsCache drv) (gob : Codec T)
    (value_of : B → Text → GoError ⊎ T)
    (sound : (v : T) (bytes : Text) → gob.encode v ≡ inr bytes → gob.decode bytes ≡ inr v) where
  -- A result that is the database's own, with the state that it leaves, in a coherent world.
  abbrev Agrees : {A : Type 0} → ℕ → (GoError ⊎ A) × B → (GoError ⊎ A) × World S B T → Type 0
  Agrees now (a, b) (r, w) =
      (r ≡ a) × (w.db ≡ b) × IsCoherent drv lawful gob value_of now w.db w.store

  agrees :
      {A : Type 0} (now : ℕ) (r : (GoError ⊎ A) × World S B T) (a : GoError ⊎ A) (w : World S B T)
      → r ≡ (a, w)
      → IsCoherent drv lawful gob value_of now w.db w.store
      → Agrees now (a, w.db) r
  agrees now r a w e h = rw e (refl, refl, h)

  -- What a miss leads to: the database answers, and a value is put into the cache.
  miss-Agrees :
      (now : ℕ) (key : Text) (ttl : Duration) (w : World S B T)
      → IsCoherent drv lawful gob value_of now w.db (drv.get now key w.store).1
      → (drv.get now key w.store).0 ≡ inl (sentinel cache_missed)
      → Agrees now (value_of w.db key, w.db) (get drv gob now key (λ b. (value_of b key, b)) ttl w)
  unfolding get Cache.get Cache.set
  miss-Agrees now key ttl w kept read =
      let s = (drv.get now key w.store).1 in
      elim (Sum-cases (value_of w.db key)) [
        | inl (err, v) ↦
            agrees now (get drv gob now key (λ b. (value_of b key, b)) ttl w) (value_of w.db key)
              (record w { store = s }) (ground (arith, read, v)) kept
        | inr (value, v) ↦ elim (Sum-cases (gob.encode value)) [
          | inl (err, k) ↦
              agrees now (get drv gob now key (λ b. (value_of b key, b)) ttl w) (value_of w.db key)
                (record w { store = s }) (ground (arith, read, v, k)) kept
          | inr (bytes, k) ↦
              agrees now (get drv gob now key (λ b. (value_of b key, b)) ttl w) (value_of w.db key)
                (record w { store = (drv.set now key bytes ttl s).1 }) (ground (arith, read, v, k))
                (set-IsCoherent drv lawful gob value_of now key bytes ttl w.db s
                  (sound value bytes k ∙ sym v) (λ j differs later. kept later j))
        ]
      ]

  pub get-Agrees :
      (start now : ℕ) (key : Text) (ttl : Duration) (w : World S B T)
      → start ≤ now
      → IsCoherent drv lawful gob value_of start w.db w.store
      → Agrees now (value_of w.db key, w.db) (get drv gob now key (λ b. (value_of b key, b)) ttl w)
  unfolding get Cache.get
  get-Agrees start now key ttl w le h =
      let kept = get-IsCoherent drv lawful gob value_of start now key w.db w.store le h in
      let seen = lawful.get_seen now key w.store in
      let s = (drv.get now key w.store).1 in
      elim (Option-cases (lawful.seen now w.store key)) [
        | inl e ↦ miss-Agrees now key ttl w kept (seen ∙ rw e refl)
        | inr (bytes, e) ↦
            let read : (drv.get now key w.store).0 ≡ inr bytes = seen ∙ rw e refl in
            let d = h now key bytes le e in
            elim (Sum-cases (gob.decode bytes)) [
              | inl (err, k) ↦
                  let v : value_of w.db key ≡ inl err = sym d ∙ k in
                  agrees now (get drv gob now key (λ b. (value_of b key, b)) ttl w)
                    (value_of w.db key) (record w { store = s }) (ground (arith, read, k, v)) kept
              | inr (value, k) ↦
                  let v : value_of w.db key ≡ inr value = sym d ∙ k in
                  agrees now (get drv gob now key (λ b. (value_of b key, b)) ttl w)
                    (value_of w.db key) (record w { store = s }) (ground (arith, read, k, v)) kept
            ]
      ]

  pub set-Agrees :
      (start now : ℕ) (key : Text) (value : T) (bytes : Text) (write : Action B (Unit {0}))
      (ttl : Duration) (w : World S B T)
      → start ≤ now
      → IsCoherent drv lawful gob value_of start w.db w.store
      → gob.encode value ≡ inr bytes
      → Sets drv lawful gob value_of key value w.db (write w.db)
      → Agrees now (write w.db) (set drv gob now key value write ttl w)
  unfolding set Cache.set
  set-Agrees start now key value bytes write ttl w le h k fit = go (write w.db) refl fit
    where
      go :
          (r : (GoError ⊎ (Unit {0})) × B)
          → write w.db ≡ r
          → Sets drv lawful gob value_of key value w.db r
          → Agrees now r (set drv gob now key value write ttl w)
      go (inl err, b) e f =
          agrees now (set drv gob now key value write ttl w) (inl err) (record w { db = b })
            (ground (arith, e))
            (unchanged-IsCoherent drv lawful gob value_of start now w.db b w.store le f h)
      go (inr done, b) e (stored, f) =
          agrees now (set drv gob now key value write ttl w) (inr done)
            (record w { db = b; store = (drv.set now key bytes ttl w.store).1 })
            (ground (arith, e, k, lawful.set_done now key bytes ttl w.store))
            (set-IsCoherent drv lawful gob value_of now key bytes ttl b w.store
              (sound value bytes k ∙ sym stored)
              (elsewhere-IsCoherentBut drv lawful gob value_of start now key w.db b w.store le f h))

  pub delete-Agrees :
      (start now : ℕ) (key : Text) (write : Action B (Unit {0})) (w : World S B T)
      → start ≤ now
      → IsCoherent drv lawful gob value_of start w.db w.store
      → Deletes drv lawful gob value_of key w.db (write w.db)
      → Agrees now (write w.db) (delete drv gob now key write w)
  unfolding delete Cache.delete
  delete-Agrees start now key write w le h fit = go (write w.db) refl fit
    where
      go :
          (r : (GoError ⊎ (Unit {0})) × B)
          → write w.db ≡ r
          → Deletes drv lawful gob value_of key w.db r
          → Agrees now r (delete drv gob now key write w)
      go (inl err, b) e f =
          agrees now (delete drv gob now key write w) (inl err) (record w { db = b })
            (ground (arith, e))
            (unchanged-IsCoherent drv lawful gob value_of start now w.db b w.store le f h)
      go (inr done, b) e f =
          agrees now (delete drv gob now key write w) (inr done)
            (record w { db = b; store = (drv.delete now key w.store).1 })
            (ground (arith, e, lawful.delete_done now key w.store))
            (delete-IsCoherent drv lawful gob value_of now key b w.store
              (elsewhere-IsCoherentBut drv lawful gob value_of start now key w.db b w.store le f h))

  -- A call whose effect on the database is what its key says, and whose value gob encodes.
  abbrev pub IsFit : Op B T → Type 0
  IsFit (get_op pause key ttl) = Unit
  IsFit (set_op pause key value write ttl) =
      ((b : B) → Sets drv lawful gob value_of key value b (write b))
      × ((bytes : Text) × (gob.encode value ≡ inr bytes))
  IsFit (delete_op pause key write) = (b : B) → Deletes drv lawful gob value_of key b (write b)

  pub got-world : {W : Type 0} (r : (GoError ⊎ T) × W) → (got r).1 ≡ r.1
  got-world (inl err, w) = refl
  got-world (inr v, w) = refl

  pub got-answer :
      {V W : Type 0} (r : (GoError ⊎ T) × V) (s : (GoError ⊎ T) × W)
      → r.0 ≡ s.0
      → (got r).0 ≡ (got s).0
  got-answer (inl err, v) (inl err', w) h = cc
  got-answer (inl err, v) (inr a, w) h = cc
  got-answer (inr b, v) (inl err, w) h = cc
  got-answer (inr b, v) (inr a, w) h = cc

  pub written-world : {W : Type 0} (r : (GoError ⊎ (Unit {0})) × W) → (written {T = T} r).1 ≡ r.1
  written-world (inl err, w) = refl
  written-world (inr done, w) = refl

  pub written-answer :
      {V W : Type 0} (r : (GoError ⊎ (Unit {0})) × V) (s : (GoError ⊎ (Unit {0})) × W)
      → r.0 ≡ s.0
      → (written {T = T} r).0 ≡ (written s).0
  written-answer (inl err, v) (inl err', w) h = cc
  written-answer (inl err, v) (inr a, w) h = cc
  written-answer (inr b, v) (inl err, w) h = cc
  written-answer (inr b, v) (inr a, w) h = refl

  -- The answers of one call in front of those of the rest.
  in_front :
      (now : ℕ) (ops : List (Op B T)) (a a' : Answer T) (w w' : World S B T) (b b' : B)
      → a ≡ a'
      → w ≡ w'
      → b' ≡ b
      → w'.db ≡ b
      → run drv gob value_of now ops w' ≡ run_directly value_of ops w'.db
      → ◌≡◌ {A = List (Answer T) × B}
          (a ∷ (run drv gob value_of now ops w).0, (run drv gob value_of now ops w).1)
          (a' ∷ (run_directly value_of ops b').0, (run_directly value_of ops b').1)
  in_front now ops a a' w w' b b' e f g k h =
      let rest : run drv gob value_of now ops w ≡ run_directly value_of ops b' =
        rw (f, g) (h ∙ ap (λ x. run_directly value_of ops x) k) in
      rw (e, rest) refl

  -- Over any cache that keeps the contract of pkg/cache, from a time at which the cache holds only
  -- what the database answers: every sequence of Get, Set and Delete, at growing times, answers call
  -- by call exactly what the same calls of the database alone answer, and leaves the same database.
  -- It supposes that gob decodes what it encoded and encodes the value of each Set; that the function
  -- given to Set, where it succeeds, makes the database answer that very value at its key; and that
  -- the functions given to Set and Delete change no other key's answer, and none at all where they
  -- fail.
  pub run_refines :
      (now : ℕ) (ops : List (Op B T)) (w : World S B T)
      → All IsFit ops
      → IsCoherent drv lawful gob value_of now w.db w.store
      → run drv gob value_of now ops w ≡ run_directly value_of ops w.db
  unfolding run run_directly
  run_refines now [] w fit h = refl
  run_refines now (get_op pause key ttl ∷ ops) w (f, fit) h =
      let r = get drv gob (now + pause) key (λ b. (value_of b key, b)) ttl w in
      let (same, db, coherent) = get-Agrees now (now + pause) key ttl w (omega arith) h in
      in_front (now + pause) ops _ _ _ r.1 w.db _ (got-answer r (value_of w.db key, w.db) same)
        (got-world r) (got-world (value_of w.db key, w.db)) db
        (run_refines (now + pause) ops r.1 fit coherent)
  run_refines now (set_op pause key value write ttl ∷ ops) w ((f, (bytes, k)), fit) h =
      let r = set drv gob (now + pause) key value write ttl w in
      let (same, db, coherent) =
        set-Agrees now (now + pause) key value bytes write ttl w (omega arith) h k (f w.db) in
      in_front (now + pause) ops _ _ _ r.1 (write w.db).1 _ (written-answer r (write w.db) same)
        (written-world r) (written-world (write w.db)) db
        (run_refines (now + pause) ops r.1 fit coherent)
  run_refines now (delete_op pause key write ∷ ops) w (f, fit) h =
      let r = delete drv gob (now + pause) key write w in
      let (same, db, coherent) =
        delete-Agrees now (now + pause) key write w (omega arith) h (f w.db) in
      in_front (now + pause) ops _ _ _ r.1 (write w.db).1 _ (written-answer r (write w.db) same)
        (written-world r) (written-world (write w.db)) db
        (run_refines (now + pause) ops r.1 fit coherent)
