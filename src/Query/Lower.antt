-- ===== src/Query/Lower.antt =====
-- What each mode makes of the slots: the pieces that end up in `sql_`, the values that the sink
-- holds, and what it means to put the parameters back.
use native.Mathlib.Numerals.{add-one}
use demiplane.Prelude.{
  ℕ, zero, suc, ◌≡◌, refl, sym, ◌∙◌, Option, none, some, List, [], ◌∷◌, ◌++◌, append_assoc,
  append-nil, length, length-append, get_elem?,
}
use demiplane.Query.Ast.{FieldValue}
use demiplane.Query.Visitor.{
  ParamMode, Plain, Piece, plain, placeholder, value, Visitor, append_plain, visit_value_impl,
  visit_param_placeholder_impl,
}
use demiplane.Query.Generate.{Params}
use demiplane.Query.Words.{Slot, fixed, lit, datum, hole}
use demiplane.Query.Emit.{append_all, emit}

abbrev pub plains : List Plain → List Piece
plains [] = []
plains (p ∷ ps) = plain p ∷ plains ps

-- The numbers of the placeholders, in the order of the text.
abbrev pub placeholders : List Piece → List ℕ
placeholders [] = []
placeholders (plain p ∷ ps) = placeholders ps
placeholders (placeholder n ∷ ps) = n ∷ placeholders ps
placeholders (value x ∷ ps) = placeholders ps

-- c + 1, c + 2, ... (k numbers).
abbrev pub numbers : ℕ → ℕ → List ℕ
numbers c zero = []
numbers c (suc k) = suc c ∷ numbers (suc c) k

-- The slots that are no fixed text.
abbrev pub places : List Slot → ℕ
places [] = 0
places (fixed ps ∷ xs) = places xs
places (lit x ∷ xs) = suc (places xs)
places (datum x ∷ xs) = suc (places xs)
places (hole ∷ xs) = suc (places xs)

-- The values of the slots, of literals and of rows alike.
abbrev pub values : List Slot → Params
values [] = []
values (fixed ps ∷ xs) = values xs
values (lit x ∷ xs) = x ∷ values xs
values (datum x ∷ xs) = x ∷ values xs
values (hole ∷ xs) = values xs

abbrev pub holes : List Slot → ℕ
holes [] = 0
holes (fixed ps ∷ xs) = holes xs
holes (lit x ∷ xs) = holes xs
holes (datum x ∷ xs) = holes xs
holes (hole ∷ xs) = suc (holes xs)

-- No `?`, and no value of a row or an assignment.
abbrev pub NoHoles : List Slot → Type 0
NoHoles [] = Unit
NoHoles (fixed ps ∷ xs) = NoHoles xs
NoHoles (lit x ∷ xs) = NoHoles xs
NoHoles (datum x ∷ xs) = NoHoles xs
NoHoles (hole ∷ xs) = ⊥

abbrev pub NoData : List Slot → Type 0
NoData [] = Unit
NoData (fixed ps ∷ xs) = NoData xs
NoData (lit x ∷ xs) = NoData xs
NoData (datum x ∷ xs) = ⊥
NoData (hole ∷ xs) = NoData xs

-- The client's view of the parameters: `$n` stands for the n-th of them.
abbrev pub bound : Option FieldValue → ℕ → Piece
bound none n = placeholder n
bound (some x) n = value x

abbrev pub substitute : Params → List Piece → List Piece
substitute xs [] = []
substitute xs (plain p ∷ ps) = plain p ∷ substitute xs ps
substitute xs (value x ∷ ps) = value x ∷ substitute xs ps
substitute xs (placeholder zero ∷ ps) = placeholder zero ∷ substitute xs ps
substitute xs (placeholder (suc i) ∷ ps) = bound (get_elem? xs i) (suc i) ∷ substitute xs ps

-- `c` is `param_count_`, `n` the size of the sink.
abbrev pub lower_inline : ℕ → List Slot → List Piece
lower_inline c [] = []
lower_inline c (fixed ps ∷ xs) = plains ps ++ lower_inline c xs
lower_inline c (lit x ∷ xs) = value x ∷ lower_inline c xs
lower_inline c (datum x ∷ xs) = value x ∷ lower_inline c xs
lower_inline c (hole ∷ xs) = placeholder (suc c) ∷ lower_inline (suc c) xs

abbrev pub lower_tuple : ℕ → List Slot → List Piece
lower_tuple c [] = []
lower_tuple c (fixed ps ∷ xs) = plains ps ++ lower_tuple c xs
lower_tuple c (lit x ∷ xs) = placeholder (suc c) ∷ lower_tuple (suc c) xs
lower_tuple c (datum x ∷ xs) = placeholder (suc c) ∷ lower_tuple (suc c) xs
lower_tuple c (hole ∷ xs) = placeholder (suc c) ∷ lower_tuple (suc c) xs

abbrev pub lower_sink : ℕ → ℕ → List Slot → List Piece
lower_sink n c [] = []
lower_sink n c (fixed ps ∷ xs) = plains ps ++ lower_sink n c xs
lower_sink n c (lit x ∷ xs) = placeholder (suc n) ∷ lower_sink (suc n) c xs
lower_sink n c (datum x ∷ xs) = placeholder (suc n) ∷ lower_sink (suc n) c xs
lower_sink n c (hole ∷ xs) = placeholder (suc c) ∷ lower_sink n (suc c) xs

append_all-sql : (ps : List Plain) (v : Visitor) → (append_all ps v).sql ≡ v.sql ++ plains ps
append_all-sql [] v = sym (append-nil v.sql)
append_all-sql (p ∷ ps) v = append_all-sql ps (append_plain p v) ∙ append_assoc v.sql _ _

append_all-param_count :
    (ps : List Plain) (v : Visitor) → (append_all ps v).param_count ≡ v.param_count
append_all-param_count [] v = refl
append_all-param_count (p ∷ ps) v = append_all-param_count ps (append_plain p v)

append_all-pushed : (ps : List Plain) (v : Visitor) → (append_all ps v).pushed ≡ v.pushed
append_all-pushed [] v = refl
append_all-pushed (p ∷ ps) v = append_all-pushed ps (append_plain p v)

ruleset after = (
  append_all-sql, append_all-param_count, append_all-pushed, append_assoc, add-one, length-append,
)

pub inline_sql :
    (xs : List Slot) (v : Visitor)
    → (emit ParamMode.inline xs v).sql ≡ v.sql ++ lower_inline v.param_count xs
unfolding visit_value_impl visit_param_placeholder_impl
inline_sql [] v = sym (append-nil v.sql)
inline_sql (fixed ps ∷ xs) v = simp (inline_sql xs, after)
inline_sql (lit x ∷ xs) v = simp (inline_sql xs, after)
inline_sql (datum x ∷ xs) v = simp (inline_sql xs, after)
inline_sql (hole ∷ xs) v = simp (inline_sql xs, after)

pub tuple_sql :
    (xs : List Slot) (v : Visitor)
    → (emit ParamMode.tuple xs v).sql ≡ v.sql ++ lower_tuple v.param_count xs
unfolding visit_value_impl visit_param_placeholder_impl
tuple_sql [] v = sym (append-nil v.sql)
tuple_sql (fixed ps ∷ xs) v = simp (tuple_sql xs, after)
tuple_sql (lit x ∷ xs) v = simp (tuple_sql xs, after)
tuple_sql (datum x ∷ xs) v = simp (tuple_sql xs, after)
tuple_sql (hole ∷ xs) v = simp (tuple_sql xs, after)

pub sink_sql :
    (xs : List Slot) (v : Visitor)
    → (emit ParamMode.sink xs v).sql ≡ v.sql ++ lower_sink (length v.pushed) v.param_count xs
unfolding visit_value_impl visit_param_placeholder_impl
sink_sql [] v = sym (append-nil v.sql)
sink_sql (fixed ps ∷ xs) v = simp (sink_sql xs, after)
sink_sql (lit x ∷ xs) v = simp (sink_sql xs, after)
sink_sql (datum x ∷ xs) v = simp (sink_sql xs, after)
sink_sql (hole ∷ xs) v = simp (sink_sql xs, after)

pub sink_pushed :
    (xs : List Slot) (v : Visitor) → (emit ParamMode.sink xs v).pushed ≡ v.pushed ++ values xs
unfolding visit_value_impl visit_param_placeholder_impl
sink_pushed [] v = sym (append-nil v.pushed)
sink_pushed (fixed ps ∷ xs) v = simp (sink_pushed xs, after)
sink_pushed (lit x ∷ xs) v = simp (sink_pushed xs, after)
sink_pushed (datum x ∷ xs) v = simp (sink_pushed xs, after)
sink_pushed (hole ∷ xs) v = simp (sink_pushed xs, after)
