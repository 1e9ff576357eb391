-- ===== src/Sqlutil/Placeholders.antt =====
-- As many placeholders as arguments: the conditions and the WHERE clause.
use clean_architect.Paginate.{filter_in, filter_between, Filter}
use clean_architect.Sqlutil.{
  string_argument, condition_to_sql, between_clause, in_clause, default_clause, clause, where_query,
}
use clean_architect.Sqlutil.Where.{
  Clause, kept, where_of, clause_text, clause_args, found_clause, where_query-eq-where_of,
}
use clean_architect.Common.{
  ℕ, zero, suc, ◌+◌, String, ◌≡◌, refl, ap, inl, inr, Option, none, some, List, [], ◌∷◌, ◌++◌, map,
  append-nil, arith, Bool-cases, ◌==◌, nat_eq, length, length-append, concat_map, All, All-append,
  Text, txt, text_beq, text_eq, contains_byte, split, join, occurrences, occurrences-append,
  repeat_text, Dict, lookup,
}

-- The number of `?` in a text.
abbrev pub marks : Text → ℕ
marks t = occurrences 63 t

abbrev pub IsMarkFree : Text → Type 0
IsMarkFree t = marks t ≡ 0

-- As many placeholders as arguments.
abbrev pub IsBalanced : Clause → Type 0
IsBalanced c = marks c.0 ≡ length c.1

abbrev IsBalancedOption : Option Clause → Type 0
IsBalancedOption none = Unit
IsBalancedOption (some c) = IsBalanced c

abbrev lit : String → ℕ
lit s = marks (txt s)

length-map {ℓ κ} :
    {A : Type ℓ} {B : Type κ} (f : A → B) (xs : List A) → length (map f xs) ≡ length xs
length-map f [] = refl
length-map f (x ∷ xs) = ap suc (length-map f xs)

marks-repeat : (n : ℕ) → marks (repeat_text (txt ",?") n) ≡ n
unfolding repeat_text occurrences
marks-repeat zero = refl
marks-repeat (suc n) = omega (arith, marks-repeat n)

marks-between :
    (field : Text) (values : List Text)
    → IsMarkFree field
    → IsBalancedOption (between_clause field values)
unfolding between_clause occurrences
marks-between field (a ∷ b ∷ vs) h = rw (occurrences-append, h)
marks-between field [] h = tt
marks-between field (a ∷ []) h = tt

marks-in_text :
    (field : Text) (n : ℕ)
    → marks (field ++ (txt " IN(?" ++ (repeat_text (txt ",?") n ++ txt ")"))) ≡ marks field + suc n
unfolding occurrences
marks-in_text field n = omega (
  arith,
  occurrences-append 63 field (txt " IN(?" ++ (repeat_text (txt ",?") n ++ txt ")")),
  occurrences-append 63 (repeat_text (txt ",?") n) (txt ")"),
  marks-repeat n,
)

marks-in :
    (field : Text) (values : List Text)
    → IsMarkFree field
    → IsBalancedOption (in_clause field values)
unfolding in_clause
marks-in field (a ∷ b ∷ vs) h =
    omega (arith, marks-in_text field (length (b ∷ vs)), length-map string_argument vs)
marks-in field [] h = tt
marks-in field (a ∷ []) h = tt

marks-condition_to_sql : (c : Text) → IsMarkFree (condition_to_sql c)
unfolding condition_to_sql occurrences
marks-condition_to_sql c = ground arith

marks-default_text :
    (field op : Text)
    → marks (field ++ (txt " " ++ (op ++ txt " ?"))) ≡ marks field + (marks op + 1)
unfolding occurrences
marks-default_text field op = omega (
  arith,
  occurrences-append 63 field (txt " " ++ (op ++ txt " ?")),
  occurrences-append 63 op (txt " ?"),
)

marks-default :
    (field : Text) (filter : Filter)
    → IsMarkFree field
    → IsBalancedOption (default_clause field filter)
unfolding default_clause
marks-default field filter h = elim (Bool-cases (contains_byte filter.value 44)) [
  | inl e ↦ rw e tt
  | inr e ↦ rw e (
      rw (
        marks-default_text field (condition_to_sql filter.condition),
        h,
        marks-condition_to_sql filter.condition,
      ))
]

marks-clause :
    (field : Text) (filter : Filter) → IsMarkFree field → IsBalancedOption (clause field filter)
unfolding clause
marks-clause field filter h = elim (Bool-cases (filter.condition == filter_between)) [
  | inl e ↦ rw e (marks-between field (split 44 filter.value) h)
  | inr e ↦ elim (Bool-cases (filter.condition == filter_in)) [
    | inl k ↦ rw (e, k) (marks-in field (split 44 filter.value) h)
    | inr k ↦ rw (e, k) (marks-default field filter h)
  ]
]

-- No column of the table holds a `?`.
abbrev pub AreMarkFree : Dict Text Text → Type 0
AreMarkFree columns = All (λ e. IsMarkFree e.1) columns

abbrev IsMarkFreeOption : Option Text → Type 0
IsMarkFreeOption none = Unit
IsMarkFreeOption (some t) = IsMarkFree t

lookup-IsMarkFree :
    (k : Text) (columns : Dict Text Text)
    → AreMarkFree columns
    → IsMarkFreeOption (lookup k columns)
unfolding lookup
lookup-IsMarkFree k [] h = tt
lookup-IsMarkFree k ((j, v) ∷ columns) h = elim (Bool-cases (text_beq j k)) [
  | inl e ↦ rw e h.0
  | inr e ↦ rw e (lookup-IsMarkFree k columns h.1)
]

found-IsBalanced :
    (filter : Filter) (o : Option Text)
    → IsMarkFreeOption o
    → All IsBalanced (found_clause filter o)
found-IsBalanced filter none h = tt
found-IsBalanced filter (some field) h = go (clause field filter) (marks-clause field filter h)
  where
    go :
        (o : Option Clause)
        → IsBalancedOption o
        → All IsBalanced (elim o [ none ↦ [] | some c ↦ c ∷ [] ])
    go none k = tt
    go (some c) k = (k, tt)

kept-IsBalanced :
    (columns : Dict Text Text) (filters : List Filter)
    → AreMarkFree columns
    → All IsBalanced (kept columns filters)
unfolding kept
kept-IsBalanced columns [] h = tt
kept-IsBalanced columns (filter ∷ filters) h =
    All-append IsBalanced (found_clause filter (lookup filter.key columns)) (kept columns filters)
      (found-IsBalanced filter (lookup filter.key columns) (lookup-IsMarkFree filter.key columns h))
      (kept-IsBalanced columns filters h)

marks-join :
    (c : Clause) (cs : List Clause)
    → All IsBalanced (c ∷ cs)
    → marks (join (txt " AND ") (map clause_text (c ∷ cs)))
      ≡ length (concat_map clause_args (c ∷ cs))
unfolding join occurrences
marks-join c [] h = rw append-nil h.0
marks-join c (d ∷ cs) h = omega (
  arith,
  occurrences-append 63 c.0 (txt " AND " ++ join (txt " AND ") (map clause_text (d ∷ cs))),
  h.0,
  length-append c.1 (concat_map clause_args (d ∷ cs)),
  marks-join d cs h.1,
)

marks-where_of : (cs : List Clause) → All IsBalanced cs → IsBalanced (where_of cs)
unfolding occurrences
marks-where_of [] h = refl
marks-where_of (c ∷ cs) h = omega (arith, marks-join c cs h)

pub where_query-IsBalanced :
    (filters : List Filter) (columns : Dict Text Text)
    → AreMarkFree columns
    → IsBalanced (where_query filters columns)
where_query-IsBalanced filters columns h =
    rw (where_query-eq-where_of filters columns)
      (marks-where_of (kept columns filters) (kept-IsBalanced columns filters h))
