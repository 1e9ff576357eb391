-- ===== src/Synq/Refinement/Async.antt =====
-- The asynchronous methods against the database alone, where each goroutine runs before the next call.
use clean_architect.Cache.{Driver, Codec}
use clean_architect.Cache.Lawful.{IsCache}
use clean_architect.Errs.{GoError}
use clean_architect.Synq.{World, get_async, set_async, delete_async, drain}
use clean_architect.Synq.Laws.{drain-get_async, drain-set_async, drain-delete_async}
use clean_architect.Synq.Refinement.{
  IsCoherent, Op, get_op, set_op, delete_op, Answer, got, written, run_directly,
}
use clean_architect.Synq.Refinement.Trace.{
  IsFit, get-Agrees, set-Agrees, delete-Agrees, got-answer, written-answer, got-world,
  written-world,
}
use mathlib.Core.Path.{subst}
use clean_architect.Common.{
  ℕ, ◌+◌, ◌≡◌, refl, sym, ap, ◌∙◌, ◌⊎◌, inr, List, [], ◌∷◌, arith, nat_eq, All, Text, text_eq,
}

module _ {S B T : Type 0} (drv : Driver S) (gob : Codec T) (value_of : B → Text → GoError ⊎ T) where
  -- The asynchronous calls, from a time on; the goroutine of each has run before the next.
  pub run_async : ℕ → List (Op B T) → World S B T → List (Answer T) × B
  unfolding get_async set_async delete_async drain
  run_async now [] w = ([], w.db)
  run_async now (get_op pause key ttl ∷ ops) w =
      let (a, w') = got (get_async drv gob (now + pause) key (λ b. (value_of b key, b)) ttl w) in
      let (answers, b) = run_async (now + pause) ops (drain drv gob (now + pause) w') in
      (a ∷ answers, b)
  run_async now (set_op pause key value write ttl ∷ ops) w =
      let (a, w') = written (set_async drv gob key value write ttl w) in
      let (answers, b) = run_async (now + pause) ops (drain drv gob (now + pause) w') in
      (a ∷ answers, b)
  run_async now (delete_op pause key write ∷ ops) w =
      let (a, w') = written (delete_async drv gob key write w) in
      let (answers, b) = run_async (now + pause) ops (drain drv gob (now + pause) w') in
      (a ∷ answers, b)

module _ {S B T : Type 0} (drv : Driver S) (lawful : IsCache drv) (gob : Codec T)
    (value_of : B → Text → GoError ⊎ T)
    (sound : (v : T) (bytes : Text) → gob.encode v ≡ inr bytes → gob.decode bytes ≡ inr v) where
  -- Where the world after a call is that of the synchronous call, whose database and answer are those
  -- of the database alone.
  before_rest :
      (now : ℕ) (ops : List (Op B T)) (a a' : Answer T) (w w' : World S B T) (b : B)
      → a ≡ a'
      → w ≡ w'
      → w'.db ≡ b
      → run_async drv gob value_of now ops w' ≡ run_directly value_of ops w'.db
      → ◌≡◌ {A = List (Answer T) × B}
          (a ∷ (run_async drv gob value_of now ops w).0, (run_async drv gob value_of now ops w).1)
          (a' ∷ (run_directly value_of ops b).0, (run_directly value_of ops b).1)
  before_rest now ops a a' w w' b e f g h =
      let rest : run_async drv gob value_of now ops w ≡ run_directly value_of ops b =
        rw f (h ∙ ap (λ x. run_directly value_of ops x) g) in
      rw (e, rest) refl

  -- One call, given that the rest of the calls answers as the database does.
  drained :
      (at : ℕ) (ops : List (Op B T)) (a a' : Answer T) (w w' : World S B T) (b : B)
      → a ≡ a'
      → w ≡ drain drv gob at w'
      → (drain drv gob at w').db ≡ b
      → (((drain drv gob at w').pending ≡ [])
          → run_async drv gob value_of at ops (drain drv gob at w')
            ≡ run_directly value_of ops (drain drv gob at w').db)
      → ◌≡◌ {A = List (Answer T) × B}
          (a ∷ (run_async drv gob value_of at ops w).0, (run_async drv gob value_of at ops w).1)
          (a' ∷ (run_directly value_of ops b).0, (run_directly value_of ops b).1)
  unfolding drain
  drained at ops a a' w w' b e f g rest = before_rest at ops a a' w _ b e f g (rest refl)

  -- Over any cache that keeps the contract of pkg/cache, from a time at which the cache holds only
  -- what the database answers and no goroutine waits: every sequence of GetAsync, SetAsync and
  -- DeleteAsync, at growing times, where the goroutine that a call starts runs before the next call,
  -- answers call by call exactly what the same calls of the database alone answer, and leaves the
  -- same database. It supposes that gob decodes what it encoded and encodes the value of each
  -- SetAsync; that the function given to SetAsync, where it succeeds, makes the database answer that
  -- value at its key; and that the functions given to SetAsync and DeleteAsync change no other key's
  -- answer, and none at all where they fail.
  pub run_async_refines :
      (now : ℕ) (ops : List (Op B T)) (w : World S B T)
      → All (IsFit drv lawful gob value_of sound) ops
      → w.pending ≡ []
      → IsCoherent drv lawful gob value_of now w.db w.store
      → run_async drv gob value_of now ops w ≡ run_directly value_of ops w.db
  unfolding run_async run_directly
  run_async_refines now [] w fit none_pending h = refl
  run_async_refines now (get_op pause key ttl ∷ ops) w (f, fit) none_pending h =
      let at = now + pause in
      let ra = get_async drv gob at key (λ b. (value_of b key, b)) ttl w in
      let (world, answer) =
        drain-get_async drv gob at key (λ b. (value_of b key, b)) ttl w none_pending in
      let (same, db, coherent) =
        get-Agrees drv lawful gob value_of sound now at key ttl w (omega arith) h in
      drained at ops _ _ _ ra.1 _
        (got-answer drv lawful gob value_of sound ra (value_of w.db key, w.db) (answer ∙ same))
        (ap (drain drv gob at) (got-world drv lawful gob value_of sound ra))
        (ap (λ x. x.db) world
          ∙ (db ∙ sym (got-world drv lawful gob value_of sound (value_of w.db key, w.db))))
        (λ p.
          run_async_refines at ops (drain drv gob at ra.1) fit p
            (subst (λ x. IsCoherent drv lawful gob value_of at x.db x.store) (sym world) coherent))
  run_async_refines now (set_op pause key value write ttl ∷ ops) w ((f, (bytes, k)), fit)
        none_pending h =
      let at = now + pause in
      let ra = set_async drv gob key value write ttl w in
      let (world, answer, _, _) = drain-set_async drv gob at key value write ttl w none_pending in
      let (same, db, coherent) =
        set-Agrees drv lawful gob value_of sound now at key value bytes write ttl w (omega arith) h
          k (f w.db) in
      drained at ops _ _ _ ra.1 _
        (written-answer drv lawful gob value_of sound ra (write w.db) answer)
        (ap (drain drv gob at) (written-world drv lawful gob value_of sound ra))
        (ap (λ x. x.db) world
          ∙ (db ∙ sym (written-world drv lawful gob value_of sound (write w.db))))
        (λ p.
          run_async_refines at ops (drain drv gob at ra.1) fit p
            (subst (λ x. IsCoherent drv lawful gob value_of at x.db x.store) (sym world) coherent))
  run_async_refines now (delete_op pause key write ∷ ops) w (f, fit) none_pending h =
      let at = now + pause in
      let ra = delete_async drv gob key write w in
      let (world, answer) = drain-delete_async drv gob at key write w none_pending in
      let (same, db, coherent) =
        delete-Agrees drv lawful gob value_of sound now at key write w (omega arith) h (f w.db) in
      drained at ops _ _ _ ra.1 _
        (written-answer drv lawful gob value_of sound ra (write w.db) answer)
        (ap (drain drv gob at) (written-world drv lawful gob value_of sound ra))
        (ap (λ x. x.db) world
          ∙ (db ∙ sym (written-world drv lawful gob value_of sound (write w.db))))
        (λ p.
          run_async_refines at ops (drain drv gob at ra.1) fit p
            (subst (λ x. IsCoherent drv lawful gob value_of at x.db x.store) (sym world) coherent))
