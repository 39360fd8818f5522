-- ===== src/Query/Params.antt =====
-- The parameters of a compiled query against its SQL text: QueryCompiler
-- (components/database/query/compiler/query_compiler.hpp) in the three modes of `ParamMode`.
use demiplane.Prelude.{
  ℕ, suc, ◌≡◌, ◌≤◌, ◌<◌, ◌⊎◌, inl, inr, none, refl, ap, ◌∙◌, some, List, [], ◌∷◌, ◌++◌,
  append_assoc, length, get_elem?,
}
use demiplane.Query.Ast.{FieldValue, Expr}
use demiplane.Query.Visitor.{ParamMode, Plain, Piece, plain, value, Visitor, fresh}
use demiplane.Query.Generate.{Params, visit, generate}
use demiplane.Query.Compile.{CompiledStatic, compile_static, compile_dynamic, compile_static_cases}
use demiplane.Dialect.{ToChars, render}
use demiplane.Query.Words.{Slot, fixed, lit, datum, hole}
use demiplane.Query.Grammar.{slots}
use demiplane.Query.Emit.{emit}
use demiplane.Query.Refine.{Result, kept, literals, visit_lem}
use demiplane.Query.Lower.{
  plains, placeholders, numbers, places, values, NoHoles, NoData, substitute, lower_inline,
  lower_tuple, lower_sink, inline_sql, tuple_sql, sink_sql, sink_pushed,
}

-- In each mode the visitor, from any state, writes exactly the SQL grammar's slots of the
-- expression, in order, and returns its literals in `Tuple` mode and nothing in the others.
pub visit-Result : (m : ParamMode) (e : Expr) (v : Visitor) → visit m e v ≡ Result m (slots e) v
visit-Result = visit_lem

pub placeholders-plains :
    (ps : List Plain) (qs : List Piece) → placeholders (plains ps ++ qs) ≡ placeholders qs
placeholders-plains [] qs = refl
placeholders-plains (p ∷ ps) qs = placeholders-plains ps qs

pub placeholders-lower_tuple :
    (c : ℕ) (xs : List Slot) → placeholders (lower_tuple c xs) ≡ numbers c (places xs)
placeholders-lower_tuple c [] = refl
placeholders-lower_tuple c (fixed ps ∷ xs) =
    placeholders-plains ps _ ∙ placeholders-lower_tuple c xs
placeholders-lower_tuple c (lit x ∷ xs) = ap (◌∷◌ (suc c)) (placeholders-lower_tuple (suc c) xs)
placeholders-lower_tuple c (datum x ∷ xs) = ap (◌∷◌ (suc c)) (placeholders-lower_tuple (suc c) xs)
placeholders-lower_tuple c (hole ∷ xs) = ap (◌∷◌ (suc c)) (placeholders-lower_tuple (suc c) xs)

places-literals : (xs : List Slot) → NoHoles xs → NoData xs → places xs ≡ length (literals xs)
places-literals [] h d = refl
places-literals (fixed ps ∷ xs) h d = places-literals xs h d
places-literals (lit x ∷ xs) h d = ap suc (places-literals xs h d)
places-literals (datum x ∷ xs) h d = absurd d
places-literals (hole ∷ xs) h d = absurd h

substitute-plains :
    (xs : Params) (ps : List Plain) (qs : List Piece)
    → substitute xs (plains ps ++ qs) ≡ plains ps ++ substitute xs qs
substitute-plains xs [] qs = refl
substitute-plains xs (p ∷ ps) qs = ap (◌∷◌ (plain p)) (substitute-plains xs ps qs)

get_elem?-length :
    (pre : Params) (x : FieldValue) (post : Params)
    → get_elem? (pre ++ x ∷ post) (length pre) ≡ some x
get_elem?-length [] x post = refl
get_elem?-length (y ∷ pre) x post = get_elem?-length pre x post

length_snoc : (pre : Params) (x : FieldValue) → length (pre ++ x ∷ []) ≡ suc (length pre)
length_snoc [] x = refl
length_snoc (y ∷ pre) x = ap suc (length_snoc pre x)

-- Putting the captured values back, when `pre` were captured before.
substitute-lower_tuple :
    (xs : List Slot) (pre : Params) (c : ℕ)
    → NoHoles xs
    → NoData xs
    → substitute (pre ++ literals xs) (lower_tuple (length pre) xs) ≡ lower_inline c xs
substitute-lower_tuple [] pre c h d = refl
substitute-lower_tuple (fixed ps ∷ xs) pre c h d =
    rw (substitute-plains, substitute-lower_tuple xs pre c h d)
substitute-lower_tuple (lit x ∷ xs) pre c h d = rw get_elem?-length (
    ap (◌∷◌ (value x))
      (rw (append_assoc, length_snoc) at (substitute-lower_tuple xs (pre ++ x ∷ []) c h d)))
substitute-lower_tuple (datum x ∷ xs) pre c h d = absurd d
substitute-lower_tuple (hole ∷ xs) pre c h d = absurd h

substitute-lower_sink :
    (xs : List Slot) (pre : Params) (c d : ℕ)
    → NoHoles xs
    → substitute (pre ++ values xs) (lower_sink (length pre) d xs) ≡ lower_inline c xs
substitute-lower_sink [] pre c d h = refl
substitute-lower_sink (fixed ps ∷ xs) pre c d h =
    rw (substitute-plains, substitute-lower_sink xs pre c d h)
substitute-lower_sink (lit x ∷ xs) pre c d h = rw get_elem?-length (
    ap (◌∷◌ (value x))
      (rw (append_assoc, length_snoc) at (substitute-lower_sink xs (pre ++ x ∷ []) c d h)))
substitute-lower_sink (datum x ∷ xs) pre c d h = rw get_elem?-length (
    ap (◌∷◌ (value x))
      (rw (append_assoc, length_snoc) at (substitute-lower_sink xs (pre ++ x ∷ []) c d h)))
substitute-lower_sink (hole ∷ xs) pre c d h = absurd h

pub generate-sql : (m : ParamMode) (e : Expr) → (generate m e).sql ≡ (emit m (slots e) fresh).sql
unfolding generate
generate-sql m e = ap (λ (r : Params × Visitor). r.1.sql) (visit_lem m e fresh)

pub generate-params :
    (m : ParamMode) (e : Expr) → (generate m e).params ≡ kept m (literals (slots e))
unfolding generate
generate-params m e = ap (λ (r : Params × Visitor). r.0) (visit_lem m e fresh)

pub generate-pushed :
    (m : ParamMode) (e : Expr) → (generate m e).pushed ≡ (emit m (slots e) fresh).pushed
unfolding generate
generate-pushed m e = ap (λ (r : Params × Visitor). r.1.pushed) (visit_lem m e fresh)

ruleset compiled =
    (generate-sql, generate-params, generate-pushed, inline_sql, tuple_sql, sink_sql, sink_pushed)

module _ (e : Expr) where
  -- Whatever the expression, the placeholders of the `Tuple`-mode SQL are $1, $2, ... in the order
  -- of the text, one for each value and each `?` of the expression.
  pub placeholders_tuple :
      placeholders (generate ParamMode.tuple e).sql ≡ numbers 0 (places (slots e))
  placeholders_tuple = simp compiled (placeholders-lower_tuple 0 (slots e))

  -- For an expression with no `?` and no row or assignment, the captured tuple has one element for
  -- each placeholder of the SQL.
  pub placeholders_captured :
      NoHoles (slots e)
      → NoData (slots e)
      → placeholders (generate ParamMode.tuple e).sql
        ≡ numbers 0 (length (generate ParamMode.tuple e).params)
  unfolding kept
  placeholders_captured h d =
      simp compiled
        (placeholders-lower_tuple 0 (slots e) ∙ ap (numbers 0) (places-literals (slots e) h d))

  substitute_generated :
      NoHoles (slots e)
      → NoData (slots e)
      → substitute (generate ParamMode.tuple e).params (generate ParamMode.tuple e).sql
        ≡ (generate ParamMode.inline e).sql
  unfolding kept
  substitute_generated h d = simp compiled (substitute-lower_tuple (slots e) [] 0 h d)

  tuple_pieces : (generate ParamMode.tuple e).sql ≡ lower_tuple 0 (slots e)
  tuple_pieces = simp compiled refl

  -- Where the `Tuple`-mode SQL of the grammar is longer than the capacity, compile_static throws; else
  -- it gives that SQL, with the tuple that was captured.
  pub compile_static_tuple :
      (std : ToChars) (max_len : ℕ)
      → ((max_len < length (render std (lower_tuple 0 (slots e))))
          × (compile_static std max_len ParamMode.tuple e ≡ none))
        ⊎ ((length (render std (lower_tuple 0 (slots e))) ≤ max_len)
            × (compile_static std max_len ParamMode.tuple e
                ≡ some (record {
                  text = render std (lower_tuple 0 (slots e));
                  sql = lower_tuple 0 (slots e);
                  params = (generate ParamMode.tuple e).params;
                })))
  compile_static_tuple std max_len =
      rw tuple_pieces at (compile_static_cases std max_len ParamMode.tuple e)

  -- For an expression with no `?` and no row or assignment, compile_static in `Tuple` mode throws
  -- exactly if the SQL that the grammar says is longer than the capacity of its string. Otherwise it
  -- returns that SQL, and putting the captured values in place of the placeholders gives the SQL of
  -- compile_dynamic in `Inline` mode.
  pub substitute_tuple :
      (std : ToChars) (max_len : ℕ)
      → NoHoles (slots e)
      → NoData (slots e)
      → ((max_len < length (render std (lower_tuple 0 (slots e))))
          × (compile_static std max_len ParamMode.tuple e ≡ none))
        ⊎ ((c : CompiledStatic) × (length (render std (lower_tuple 0 (slots e))) ≤ max_len)
            × (compile_static std max_len ParamMode.tuple e ≡ some c)
            × (c.text ≡ render std (lower_tuple 0 (slots e)))
            × (substitute c.params c.sql ≡ (compile_dynamic ParamMode.inline e).sql))
  unfolding compile_dynamic
  substitute_tuple std max_len h d = elim (compile_static_tuple std max_len) [
    | inl over ↦ inl over
    | inr (fits, done) ↦ inr (_, fits, done, refl, rw tuple_pieces at (substitute_generated h d))
  ]

  -- For every expression with no `?`, rows and assignments included, putting the values that the
  -- sink received in place of the placeholders of the `Sink`-mode SQL gives the `Inline`-mode SQL.
  pub substitute_sink :
      NoHoles (slots e)
      → substitute (compile_dynamic ParamMode.sink e).pushed (compile_dynamic ParamMode.sink e).sql
        ≡ (compile_dynamic ParamMode.inline e).sql
  unfolding compile_dynamic
  substitute_sink h = simp compiled (substitute-lower_sink (slots e) [] 0 0 h)
