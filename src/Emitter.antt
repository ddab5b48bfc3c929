-- ===== src/Emitter.antt =====
-- Emitter and CppEmitter of src/emitter/include/primitives/emitter.h: lines with indents, of which
-- some are emitters themselves. `lines` grows behind the last line.
mod Editing
mod Empty
mod Blocks
mod Examples
use primitives.Prelude.{
  ℕ, zero, suc, ◌+◌, ◌-◌, Bool, true, false, not, List, [], ◌∷◌, ◌++◌, Option, none, some, map,
  Bytes, codes, length, take, leb, ltb, ◌==◌, if◌then◌else◌, Outcome, ok, throw, undefined,
  length_error, ◌>>=◌,
}
use primitives.Prelude.Int.{ℤ, pos, negsuc, pos_part, ◌+ℤ◌, ltb_ℤ}

mutual
  pub data Line : Type 0 where
    text : ℤ → Bytes → Line
    inline : ℤ → Bytes → Bytes → Lines → Line

  pub data Lines : Type 0 where
    no_lines : Lines
    behind : Lines → Line → Lines

pub record Emitter : Type 0 where
  pub lines : Lines
  pub n_indents : ℤ
  pub indent : Bytes
  pub newline : Bytes
  pub namespaces : List Bytes

abbrev pub is_blank : Bytes → Bool
is_blank [] = true
is_blank (c ∷ s) = false

-- What is behind a prefix.
abbrev pub cut_prefix : Bytes → Bytes → Option Bytes
cut_prefix [] s = some s
cut_prefix (a ∷ p) [] = none
cut_prefix (a ∷ p) (c ∷ s) = if a == c then cut_prefix p s else none

-- detail::splitWithIndent, with `part` read so far; with an empty newline it does not end.
split_from : ℕ → Bytes → Bytes → Bytes → Outcome (List Bytes)
split_from zero newline part s = undefined
split_from (suc f) newline part s = elim (cut_prefix newline s) [
  | some rest ↦ split_from f newline [] rest >>= λ parts. ok (part ∷ parts)
  | none ↦ elim s [ [] ↦ ok (part ∷ []) | c ∷ cs ↦ split_from f newline (part ++ c ∷ []) cs ]
]

unfoldable pub split : Bytes → Bytes → Outcome (List Bytes)
unfolding split_from
split newline s = split_from (suc (length s)) newline [] s

abbrev pub repeated : ℕ → Bytes → Bytes
repeated zero s = []
repeated (suc n) s = s ++ repeated n s

abbrev pub concatenated : List Bytes → Bytes
concatenated [] = []
concatenated (s ∷ ss) = s ++ concatenated ss

abbrev pub has_lines : Lines → Bool
has_lines no_lines = false
has_lines (behind ls l) = true

abbrev pub line_indents : Line → ℤ
line_indents (text n t) = n
line_indents (inline n indent newline ls) = n

-- Line::empty and EmitterLine::empty
abbrev pub line_empty : Line → Bool
line_empty (text n t) = false
line_empty (inline n indent newline ls) = not (has_lines ls)

abbrev pub space : Bytes → ℤ → Bytes → Bytes
space indent n t = if is_blank t then [] else repeated (pos_part n) indent

-- t.resize(t.size() - k)
abbrev pub cut_end : ℕ → Bytes → Outcome Bytes
cut_end k t = if leb k (length t) then ok (take (length t - k) t) else throw length_error

-- The lines that a line's text comes to.
abbrev pub spread : Bytes → Bytes → ℤ → Bytes → List Bytes → List Bytes
spread indent newline n t parts = map (λ p. space indent n t ++ (p ++ newline)) parts

unfoldable mutual
  -- Line::getText and EmitterLine::getText
  pub line_text : Line → Outcome Bytes
  line_text (text n t) = ok t
  line_text (inline n indent newline ls) =
      strings indent newline ls >>= λ ss. cut_end (length newline) (concatenated ss)

  -- Emitter::getStrings
  pub strings : Bytes → Bytes → Lines → Outcome (List Bytes)
  strings indent newline no_lines = ok []
  strings indent newline (behind ls l) = strings indent newline ls >>= λ ss. elim (line_empty l) [
    | true ↦ ok ss
    | false ↦ line_text l >>= λ t.
        split newline t >>= λ parts. ok (ss ++ spread indent newline (line_indents l) t parts)
  ]

-- Emitter::getText
unfoldable pub get_text : Emitter → Outcome Bytes
unfolding strings
get_text e = strings e.indent e.newline e.lines >>= λ ss. ok (concatenated ss)

abbrev pub add_parts : ℤ → List Bytes → Lines → Lines
add_parts n [] ls = ls
add_parts n (p ∷ ps) ls = add_parts n ps (behind ls (text n p))

-- addLineWithIndent(text, in_indent)
unfoldable pub add_line_at : ℤ → Bytes → Emitter → Outcome Emitter
unfolding split
add_line_at n s e =
    split e.newline s >>= λ parts. ok (record e { lines = add_parts n parts e.lines })

unfoldable pub add_line : Bytes → Emitter → Outcome Emitter
unfolding add_line_at
add_line s e = add_line_at (if is_blank s then pos 0 else e.n_indents) s e

abbrev pub increase_indent : ℤ → Emitter → Emitter
increase_indent n e = record e { n_indents = e.n_indents +ℤ n }

abbrev pub decrease_indent : Emitter → Emitter
decrease_indent e = record e { n_indents = e.n_indents +ℤ negsuc 0 }

-- emptyLines(0): the lines without text at the end go.
unfoldable pub drop_empty_lines : Lines → Outcome Lines
unfolding line_text
drop_empty_lines no_lines = ok no_lines
drop_empty_lines (behind ls l) =
    line_text l >>= λ t. elim (is_blank t) [ true ↦ drop_empty_lines ls | false ↦ ok (behind ls l) ]

-- operator+=: the lines of rhs as texts, further to the right.
abbrev pub append_lines : ℤ → Lines → Lines → Outcome Lines
append_lines n ls no_lines = ok ls
append_lines n ls (behind rhs l) = append_lines n ls rhs >>= λ r. elim (line_empty l) [
  | true ↦ ok r
  | false ↦ line_text l >>= λ t. ok (behind r (text (line_indents l +ℤ n) t))
]

unfoldable pub append_emitter : Emitter → Emitter → Outcome Emitter
append_emitter e rhs =
    append_lines e.n_indents e.lines rhs.lines >>= λ ls. ok (record e { lines = ls })

-- CppEmitter::beginBlock and endBlock
unfoldable pub begin_block : Bytes → Bool → Emitter → Outcome Emitter
unfolding add_line
begin_block s in_indent e = (if is_blank s then ok e else add_line s e) >>= λ f.
    add_line (codes "{") f >>= λ g. ok (if in_indent then increase_indent (pos 1) g else g)

unfoldable pub end_block : Bool → Emitter → Outcome Emitter
unfolding add_line drop_empty_lines
end_block semicolon e = drop_empty_lines e.lines >>= λ ls.
    add_line (codes (if semicolon then "};" else "}")) (record (decrease_indent e) { lines = ls })

-- CppEmitter::beginNamespace and endNamespace, whose stack has the innermost first.
unfoldable pub begin_namespace : Bytes → Emitter → Outcome Emitter
unfolding add_line add_line_at
begin_namespace s e = add_line_at (pos 0) (codes "namespace " ++ s) e >>= λ f.
    add_line_at (pos 0) (codes "{") f >>= λ g.
    add_line [] g >>= λ h. ok (record h { namespaces = s ∷ h.namespaces })

abbrev pub top_namespace : Bytes → List Bytes → Bytes × List Bytes
top_namespace s [] = (s, [])
top_namespace [] (n ∷ ns) = (n, ns)
top_namespace (c ∷ s) (n ∷ ns) = (c ∷ s, n ∷ ns)

unfoldable pub end_namespace : Bytes → Emitter → Outcome Emitter
unfolding add_line add_line_at
end_namespace ns e =
    let (s, rest) = top_namespace ns e.namespaces in
    add_line_at (pos 0) (codes "} // namespace " ++ s) (record e { namespaces = rest }) >>= λ f.
    add_line [] f

abbrev pub new_emitter : Bytes → Bytes → Emitter
new_emitter indent newline = record {
  lines = no_lines;
  n_indents = pos 0;
  indent = indent;
  newline = newline;
  namespaces = [];
}
