-- ===== src/Sqlutil/Where.antt =====
-- The text and the arguments of the WHERE clause, against their description by `join`.
use clean_architect.Paginate.{filter_in, filter_between, Filter}
use clean_architect.Sqlutil.{
  Argument, between_clause, in_clause, default_clause, clause, Loop, add_clause, add_filter,
  add_all, where_result, where_query,
}
use clean_architect.Common.{
  ℕ, ◌≡◌, refl, ◌∙◌, inl, inr, Bool, true, false, Option, none, some, List, [], ◌∷◌, ◌++◌, map,
  append-nil, append_assoc, arith, Bool-cases, ◌==◌, nat_eq, length, concat_map, contains, All,
  All-append, Text, txt, text_eq, contains_byte, split, join, trim_right, repeat_text, AllIn,
  trim_right-append, Dict, lookup,
}

-- The text and the arguments of one condition.
abbrev pub Clause : Type 0
Clause = Text × List Argument

abbrev pub found_clause : Filter → Option Text → List Clause
found_clause filter none = []
found_clause filter (some field) = elim (clause field filter) [ none ↦ [] | some c ↦ c ∷ [] ]

-- The clauses of the filters that are kept, in order.
unfoldable pub kept : Dict Text Text → List Filter → List Clause
kept columns [] = []
kept columns (filter ∷ filters) =
    found_clause filter (lookup filter.key columns) ++ kept columns filters

abbrev pub clause_text : Clause → Text
clause_text c = c.0

abbrev pub clause_args : Clause → List Argument
clause_args c = c.1

-- What the WHERE clause ought to be.
abbrev pub where_of : List Clause → Text × List Argument
where_of [] = ([], [])
where_of (c ∷ cs) =
    (txt "WHERE " ++ join (txt " AND ") (map clause_text (c ∷ cs)), concat_map clause_args (c ∷ cs))

-- The last byte is none that `strings.TrimRight(…, " AND ")` takes.
abbrev EndsClean : Text → Type 0
EndsClean t = (s : Text) × (c : ℕ) × (t ≡ s ++ (c ∷ [])) × (contains (txt " AND ") c ≡ false)

abbrev EndsCleanOf : Option Clause → Type 0
EndsCleanOf none = Unit
EndsCleanOf (some c) = EndsClean c.0

EndsClean-append : (s t : Text) → EndsClean t → EndsClean (s ++ t)
EndsClean-append s t (u, c, e, h) = (s ++ u, c, rw (e, append_assoc) refl, h)

EndsClean-mark : EndsClean (txt "?")
unfolding contains
EndsClean-mark = ([], 63, refl, refl)

EndsClean-paren : EndsClean (txt ")")
unfolding contains
EndsClean-paren = ([], 41, refl, refl)

EndsClean-between : EndsClean (txt " BETWEEN ? AND ?")
unfolding contains
EndsClean-between = (txt " BETWEEN ? AND ", 63, refl, refl)

EndsClean-eq_mark : EndsClean (txt " ?")
unfolding contains
EndsClean-eq_mark = (txt " ", 63, refl, refl)

between-EndsClean : (field : Text) (values : List Text) → EndsCleanOf (between_clause field values)
unfolding between_clause
between-EndsClean field (a ∷ b ∷ vs) = EndsClean-append field _ EndsClean-between
between-EndsClean field [] = tt
between-EndsClean field (a ∷ []) = tt

in-EndsClean : (field : Text) (values : List Text) → EndsCleanOf (in_clause field values)
unfolding in_clause
in-EndsClean field (a ∷ b ∷ vs) = EndsClean-append field _ (
    EndsClean-append (txt " IN(?") _
      (EndsClean-append (repeat_text (txt ",?") (length (b ∷ vs))) (txt ")") EndsClean-paren))
in-EndsClean field [] = tt
in-EndsClean field (a ∷ []) = tt

default-EndsClean : (field : Text) (filter : Filter) → EndsCleanOf (default_clause field filter)
unfolding default_clause
default-EndsClean field filter = elim (Bool-cases (contains_byte filter.value 44)) [
  | inl h ↦ rw h tt
  | inr h ↦ rw h (
      EndsClean-append field _
        (EndsClean-append (txt " ") _ (EndsClean-append _ (txt " ?") EndsClean-eq_mark)))
]

clause-EndsClean : (field : Text) (filter : Filter) → EndsCleanOf (clause field filter)
unfolding clause
clause-EndsClean field filter = elim (Bool-cases (filter.condition == filter_between)) [
  | inl h ↦ rw h (between-EndsClean field (split 44 filter.value))
  | inr h ↦ elim (Bool-cases (filter.condition == filter_in)) [
    | inl k ↦ rw (h, k) (in-EndsClean field (split 44 filter.value))
    | inr k ↦ rw (h, k) (default-EndsClean field filter)
  ]
]

kept-EndsClean :
    (columns : Dict Text Text) (filters : List Filter)
    → All (λ c. EndsClean c.0) (kept columns filters)
unfolding kept
kept-EndsClean columns [] = tt
kept-EndsClean columns (filter ∷ filters) =
    All-append (λ c. EndsClean c.0) _ _ (found (lookup filter.key columns))
      (kept-EndsClean columns filters)
  where
    found_one :
        (o : Option Clause)
        → EndsCleanOf o
        → All (λ c. EndsClean c.0) (elim o [ none ↦ [] | some c ↦ c ∷ [] ])
    found_one none h = tt
    found_one (some c) h = (h, tt)

    found : (o : Option Text) → All (λ c. EndsClean c.0) (found_clause filter o)
    found none = tt
    found (some field) = found_one (clause field filter) (clause-EndsClean field filter)

join-EndsClean :
    (c : Clause) (cs : List Clause)
    → All (λ d. EndsClean d.0) (c ∷ cs)
    → EndsClean (join (txt " AND ") (map clause_text (c ∷ cs)))
unfolding join
join-EndsClean c [] h = h.0
join-EndsClean c (d ∷ cs) h =
    EndsClean-append c.0 _ (EndsClean-append (txt " AND ") _ (join-EndsClean d cs h.1))

-- Each clause with the separator behind it, as the loop writes them.
abbrev ended : Clause → Text
ended c = c.0 ++ txt " AND "

ended-eq-join :
    (c : Clause) (cs : List Clause)
    → concat_map ended (c ∷ cs) ≡ join (txt " AND ") (map clause_text (c ∷ cs)) ++ txt " AND "
unfolding join
ended-eq-join c [] = append-nil _
ended-eq-join c (d ∷ cs) = rw (ended-eq-join d cs) (simp append_assoc)

abbrev is_some_clause : List Clause → Bool
is_some_clause [] = false
is_some_clause (c ∷ cs) = true

-- The loop's variables after the clauses `cs`.
abbrev after : Loop → List Clause → Loop
after l [] = l
after l (c ∷ cs) = after (add_clause l (some c)) cs

after-append : (l : Loop) (cs ds : List Clause) → after (after l cs) ds ≡ after l (cs ++ ds)
after-append l [] ds = refl
after-append l (c ∷ cs) ds = after-append (add_clause l (some c)) cs ds

one_filter :
    (columns : Dict Text Text) (l : Loop) (filter : Filter)
    → add_filter columns l filter ≡ after l (found_clause filter (lookup filter.key columns))
unfolding add_filter
one_filter columns l filter = ground arith

add_all-after :
    (columns : Dict Text Text) (l : Loop) (filters : List Filter)
    → add_all columns l filters ≡ after l (kept columns filters)
unfolding add_all kept
add_all-after columns l [] = refl
add_all-after columns l (filter ∷ filters) =
    rw (add_all-after columns (add_filter columns l filter) filters, one_filter columns l filter)
      (after-append l (found_clause filter (lookup filter.key columns)) (kept columns filters))

-- The loop's variables after the clauses `cs`, in one piece.
after_lem :
    (q : Text) (args : List Argument) (c : Clause) (cs : List Clause) (b : Bool)
    → after (record { query = q; has_already_where_query = b; args = args }) (c ∷ cs) ≡ record {
      query = q ++ concat_map ended (c ∷ cs);
      has_already_where_query = true;
      args = args ++ concat_map clause_args (c ∷ cs);
    }
after_lem q args c [] b = rw (append-nil, append-nil)
after_lem q args c (d ∷ cs) b =
    after_lem (q ++ ended c) (args ++ clause_args c) d cs true
    ∙ rw (
      append_assoc q (ended c) (concat_map ended (d ∷ cs)),
      append_assoc args (clause_args c) (concat_map clause_args (d ∷ cs)),
    )

abbrev start : Loop
start = record { query = txt "WHERE "; has_already_where_query = false; args = [] }

all_cut : AllIn (txt " AND ") (txt " AND ")
unfolding contains
all_cut = (refl, (refl, (refl, (refl, (refl, tt)))))

-- Trimming takes the last separator and nothing more.
trim_where :
    (c : Clause) (cs : List Clause)
    → All (λ d. EndsClean d.0) (c ∷ cs)
    → trim_right (txt " AND ") (txt "WHERE " ++ concat_map ended (c ∷ cs))
      ≡ txt "WHERE " ++ join (txt " AND ") (map clause_text (c ∷ cs))
trim_where c cs h =
    let (s, b, e, clean) = join-EndsClean c cs h in
    rw (ended-eq-join c cs, e, append_assoc)
      (trim_right-append (txt " AND ") (txt "WHERE " ++ s) b (txt " AND ") clean all_cut)

where_result-after :
    (cs : List Clause) → All (λ d. EndsClean d.0) cs → where_result (after start cs) ≡ where_of cs
unfolding where_result
where_result-after [] h = refl
where_result-after (c ∷ cs) h = rw (after_lem (txt "WHERE ") [] c cs false, trim_where c cs h)

-- For every filter list and table of columns, the loop, its separators and the final trim give
-- exactly `WHERE ` and the kept clauses joined by ` AND `, with their arguments in order, and an
-- empty text and no argument where no clause is kept.
pub where_query-eq-where_of :
    (filters : List Filter) (columns : Dict Text Text)
    → where_query filters columns ≡ where_of (kept columns filters)
unfolding where_query
where_query-eq-where_of [] columns = unfold kept in refl
where_query-eq-where_of (filter ∷ filters) columns =
    rw (add_all-after columns start (filter ∷ filters)) (
      where_result-after (kept columns (filter ∷ filters))
        (kept-EndsClean columns (filter ∷ filters)))
