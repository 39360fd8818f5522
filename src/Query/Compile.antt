-- ===== src/Query/Compile.antt =====
-- QueryCompiler (components/database/query/compiler/query_compiler.hpp), with the string of fixed
-- capacity into which compile_static writes (common/gears/strings/gears_strings.hpp).
use demiplane.Prelude.{
  ℕ, ◌+◌, ◌≤◌, ◌<◌, ◌≡◌, ◌∙◌, ◌⊎◌, refl, sym, ap, inl, inr, Option, none, some, List, [], ◌∷◌, ◌++◌,
  Text, length, ltb, ltb→lt, if◌then◌else◌, Bool-cases, append_assoc, append-nil, length-append,
  arith,
}
use demiplane.Query.Ast.{Expr}
use demiplane.Query.Visitor.{
  ParamMode, Piece, plain, placeholder, value, text, identifier, limit_clause,
}
use demiplane.Query.Generate.{Params, Compiled, generate}
use demiplane.Dialect.{
  ToChars, render, quote_identifier, limit_text, placeholder_text, format_value,
}

-- `InlineString::operator+=`; `none` is the out_of_range of a capacity that is exceeded.
unfoldable pub append_string : ℕ → Text → Text → Option Text
append_string capacity s t = if ltb capacity (length s + length t) then none else some (s ++ t)

abbrev then_append : Option Text → (Text → Option Text) → Option Text
then_append none f = none
then_append (some t) f = f t

-- compile_dynamic, for the modes Inline and Sink: its string grows as it must.
unfoldable pub compile_dynamic : ParamMode → Expr → Compiled
compile_dynamic m e = generate m e

-- CompiledStaticQuery: the bytes of the SQL, its pieces, and the captured tuple.
pub record CompiledStatic : Type 0 where
  pub text : Text
  pub sql : List Piece
  pub params : Params

abbrev pub static_query : Compiled → Option Text → Option CompiledStatic
static_query c none = none
static_query c (some t) = some (record { text = t; sql = c.sql; params = c.params })

module _ (std : ToChars) (max_len : ℕ) where
  -- The pieces go to the string one after the other. A piece may be appended in parts: one of them
  -- fails exactly if the whole does not fit.
  unfoldable pub append_pieces : List Piece → Text → Option Text
  append_pieces [] s = some s
  append_pieces (p ∷ ps) s =
      then_append (append_string max_len s (render std (p ∷ []))) (λ t. append_pieces ps t)

  -- compile_static, for the modes Inline and Tuple.
  unfoldable pub compile_static : ParamMode → Expr → Option CompiledStatic
  compile_static m e = static_query (generate m e) (append_pieces (generate m e).sql [])

  grow : (u v : Text) → u ++ v ≡ (u ++ []) ++ v
  grow u v = rw append-nil refl

  render-cons :
      (p : Piece) (ps : List Piece) → render std (p ∷ ps) ≡ render std (p ∷ []) ++ render std ps
  unfolding render
  render-cons (plain (text t)) ps = grow t (render std ps)
  render-cons (plain (identifier n)) ps = grow (quote_identifier n) (render std ps)
  render-cons (plain (limit_clause l o)) ps = grow (limit_text l o) (render std ps)
  render-cons (placeholder n) ps = grow (placeholder_text n) (render std ps)
  render-cons (value x) ps = grow (format_value std x) (render std ps)

  length-render :
      (p : Piece) (ps : List Piece)
      → length (render std (p ∷ ps)) ≡ length (render std (p ∷ [])) + length (render std ps)
  length-render p ps =
      ap length (render-cons p ps) ∙ length-append {0} (render std (p ∷ [])) (render std ps)

  append_fits :
      (s t : Text) → length s + length t ≤ max_len → append_string max_len s t ≡ some (s ++ t)
  unfolding append_string
  append_fits s t h = ground (arith, h)

  append_overflows : (s t : Text) → max_len < length s + length t → append_string max_len s t ≡ none
  unfolding append_string
  append_overflows s t h = ground (arith, h)

  append_pieces_fits :
      (ps : List Piece) (s : Text)
      → length s + length (render std ps) ≤ max_len
      → append_pieces ps s ≡ some (s ++ render std ps)
  unfolding append_pieces
  append_pieces_fits [] s h = ap some (unfold render in sym (append-nil s))
  append_pieces_fits (p ∷ ps) s h =
      let first = render std (p ∷ []) in
      let longer = length-append {0} s first in
      ap (λ (o : Option Text). then_append o (λ t. append_pieces ps t))
        (append_fits s first (omega (arith, h, length-render p ps)))
      ∙ (append_pieces_fits ps (s ++ first) (omega (arith, h, length-render p ps, longer))
          ∙ ap some (
              append_assoc s first (render std ps)
              ∙ ap (λ (u : Text). s ++ u) (sym (render-cons p ps))))

  no_text : length (render std []) ≡ 0
  unfolding render
  no_text = refl

  append_pieces_overflows :
      (ps : List Piece) (s : Text)
      → length s ≤ max_len
      → max_len < length s + length (render std ps)
      → append_pieces ps s ≡ none
  unfolding append_pieces
  append_pieces_overflows [] s r h = absurd (omega (arith, r, h, no_text))
  append_pieces_overflows (p ∷ ps) s r h =
      let first = render std (p ∷ []) in
      let longer = length-append {0} s first in
      elim (Bool-cases (ltb max_len (length s + length first))) [
        | inl over ↦
            ap (λ (o : Option Text). then_append o (λ t. append_pieces ps t))
              (append_overflows s first (ltb→lt _ _ over))
        | inr fits ↦
            let room : length s + length first ≤ max_len = ground (arith, fits) in
            ap (λ (o : Option Text). then_append o (λ t. append_pieces ps t))
              (append_fits s first room)
            ∙ (append_pieces_overflows ps (s ++ first) (omega (arith, room, longer))
                (omega (arith, h, length-render p ps, longer)))
      ]

  -- Either the SQL is longer than the capacity, and compile_static throws, or it gives the SQL.
  pub compile_static_cases :
      (m : ParamMode) (e : Expr)
      → ((max_len < length (render std (generate m e).sql)) × (compile_static m e ≡ none))
        ⊎ ((length (render std (generate m e).sql) ≤ max_len)
            × (compile_static m e
                ≡ some (record {
                  text = render std (generate m e).sql;
                  sql = (generate m e).sql;
                  params = (generate m e).params;
                })))
  unfolding compile_static
  compile_static_cases m e =
      let c = generate m e in
      elim (Bool-cases (ltb max_len (length (render std c.sql)))) [
        | inl h ↦
            let over = ltb→lt max_len (length (render std c.sql)) h in
            inl (
              over,
              ap (static_query c)
                  (append_pieces_overflows c.sql [] (omega arith) (omega (arith, over))),
            )
        | inr h ↦
            let fits : length (render std c.sql) ≤ max_len = ground (arith, h) in
            inr (fits, ap (static_query c) (append_pieces_fits c.sql [] (omega (arith, fits))))
      ]
