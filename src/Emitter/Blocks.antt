-- ===== src/Emitter/Blocks.antt =====
-- What a block of CppEmitter prints (src/emitter/include/primitives/emitter.h).
use primitives.Prelude.{
  arith, append-nil, sym, ℕ, suc, ◌≡◌, refl, true, false, List, [], ◌∷◌, ◌++◌, map, Bytes, codes,
  Outcome, ok, ◌>>=◌, if◌then◌else◌, ap, ◌∙◌, All, append_assoc,
}
use primitives.Prelude.Int.{◌+ℤ◌, negsuc, ℤ, pos}
use primitives.Emitter.{
  decrease_indent, increase_indent, drop_empty_lines, spread, add_parts, line_text, add_line_at,
  Emitter, Lines, behind, text, split, strings, add_line, begin_block, end_block, is_blank,
  repeated,
}

-- A text of one line, with something in it.
abbrev pub IsLine : Bytes → Bytes → Type 0
IsLine newline s = (split newline s ≡ ok (s ∷ [])) × (is_blank s ≡ false)

-- A line k steps to the right.
abbrev pub indented : Bytes → Bytes → ℕ → Bytes → Bytes
indented indent newline k s = repeated k indent ++ (s ++ newline)

abbrev pub add_body : List Bytes → Emitter → Outcome Emitter
add_body [] e = ok e
add_body (s ∷ ss) e = add_line s e >>= λ f. add_body ss f

-- e prints ss.
abbrev pub Prints : Emitter → List Bytes → Type 0
Prints e ss = strings e.indent e.newline e.lines ≡ ok ss

abbrev with_line_at : Emitter → ℤ → Bytes → Emitter
with_line_at e n s = record e { lines = behind e.lines (text n s) }

-- e with a line k steps to the right behind.
abbrev with_line : Emitter → ℕ → Bytes → Emitter
with_line e k s = record e { lines = behind e.lines (text (pos k) s) }

add_line-with_line :
    (e : Emitter) (k : ℕ) (s : Bytes)
    → e.n_indents ≡ pos k
    → IsLine e.newline s
    → add_line s e ≡ ok (with_line e k s)
unfolding add_line add_line_at
add_line-with_line e k s n (o, h) =
    ap
      (λ x. x >>= λ parts.
        ok (record e {
          lines = add_parts (if is_blank s then pos 0 else e.n_indents) parts e.lines;
        }))
      o
    ∙ ap (λ q. ok (with_line_at e (if q then pos 0 else e.n_indents) s)) h
    ∙ ap (λ n. ok (with_line_at e n s)) n

with_line-Prints :
    (e : Emitter) (k : ℕ) (s : Bytes) (ss : List Bytes)
    → IsLine e.newline s
    → Prints e ss
    → Prints (with_line e k s) (ss ++ (indented e.indent e.newline k s ∷ []))
unfolding strings line_text
with_line-Prints e k s ss (o, h) p =
    ap
      (λ x. x >>= λ ss'.
        split e.newline s >>= λ parts. ok (ss' ++ spread e.indent e.newline (pos k) s parts))
      p
    ∙ ap (λ x. x >>= λ parts. ok (ss ++ spread e.indent e.newline (pos k) s parts)) o
    ∙ ap (λ q. ok (ss ++ (((if q then [] else repeated k e.indent) ++ (s ++ e.newline)) ∷ []))) h

abbrev behind_all : Lines → ℕ → List Bytes → Lines
behind_all ls k [] = ls
behind_all ls k (s ∷ ss) = behind_all (behind ls (text (pos k) s)) k ss

abbrev with_lines : Emitter → ℕ → List Bytes → Emitter
with_lines e k ss = record e { lines = behind_all e.lines k ss }

-- The last line has a text.
abbrev EndsInText : Lines → Type 0
EndsInText ls = drop_empty_lines ls ≡ ok ls

behind-EndsInText :
    (ls : Lines) (k : ℕ) (s : Bytes) → is_blank s ≡ false → EndsInText (behind ls (text (pos k) s))
unfolding drop_empty_lines line_text
behind-EndsInText ls k s h =
    ap (λ q. elim q [ true ↦ drop_empty_lines ls | false ↦ ok (behind ls (text (pos k) s)) ]) h

behind_all-EndsInText :
    (ls : Lines) (k : ℕ) (newline : Bytes) (body : List Bytes)
    → All (IsLine newline) body
    → EndsInText ls
    → EndsInText (behind_all ls k body)
behind_all-EndsInText ls k newline [] a h = h
behind_all-EndsInText ls k newline (s ∷ ss) ((o, a), more) h =
    behind_all-EndsInText (behind ls (text (pos k) s)) k newline ss more
      (behind-EndsInText ls k s a)

add_body-with_lines :
    (e : Emitter) (k : ℕ) (body : List Bytes)
    → e.n_indents ≡ pos k
    → All (IsLine e.newline) body
    → add_body body e ≡ ok (with_lines e k body)
add_body-with_lines e k [] n a = refl
add_body-with_lines e k (s ∷ ss) n (a, more) =
    ap (λ x. x >>= λ f. add_body ss f) (add_line-with_line e k s n a)
    ∙ add_body-with_lines (with_line e k s) k ss n more

with_lines-Prints :
    (e : Emitter) (k : ℕ) (body ss : List Bytes)
    → All (IsLine e.newline) body
    → Prints e ss
    → Prints (with_lines e k body) (ss ++ map (indented e.indent e.newline k) body)
with_lines-Prints e k [] ss a p = rw append-nil p
with_lines-Prints e k (s ∷ body) ss (a, more) p =
    rw
      (sym (
        append_assoc ss (indented e.indent e.newline k s ∷ [])
          (map (indented e.indent e.newline k) body)))
      (with_lines-Prints (with_line e k s) k body (ss ++ (indented e.indent e.newline k s ∷ []))
        more (with_line-Prints e k s ss a p))

-- A block of lines.
abbrev pub block : Bytes → List Bytes → Emitter → Outcome Emitter
block s body e = begin_block s true e >>= λ f. add_body body f >>= λ g. end_block false g

-- What it prints.
abbrev pub block_lines : Bytes → Bytes → ℕ → Bytes → List Bytes → List Bytes
block_lines indent newline k s body =
    map (indented indent newline k) (s ∷ codes "{" ∷ [])
    ++ (map (indented indent newline (suc k)) body
        ++ map (indented indent newline k) (codes "}" ∷ []))

regroup :
    (ss : List Bytes) (a c : Bytes) (m z : List Bytes)
    → ((ss ++ (a ∷ [])) ++ (c ∷ []) ++ m) ++ z ≡ ss ++ ((a ∷ c ∷ []) ++ (m ++ z))
regroup [] a c m z = refl
regroup (s ∷ ss) a c m z = ap (λ r. s ∷ r) (regroup ss a c m z)

-- A block prints its heading and a brace at the indent of the emitter, the lines of its body one step
-- to the right, and a brace again, and leaves the indent as it was; the heading and the lines of the
-- body are single lines with something in them, as a brace is with this newline.
pub block-Prints :
    (e : Emitter) (k : ℕ) (s : Bytes) (body ss : List Bytes)
    → e.n_indents ≡ pos k
    → IsLine e.newline (codes "{")
    → IsLine e.newline (codes "}")
    → IsLine e.newline s
    → All (IsLine e.newline) body
    → Prints e ss
    → (f : Emitter) × ((block s body e ≡ ok f)
        × ((f.n_indents ≡ pos k) × Prints f (ss ++ block_lines e.indent e.newline k s body)))
unfolding begin_block end_block
block-Prints e k s body ss n open_brace close_brace a as_lines p =
    let e2 : Emitter = with_line (with_line e k s) k (codes "{") in
    let deeper : e.n_indents +ℤ pos 1 ≡ pos (suc k) = rw n (ground arith) in
    let e3 : Emitter = record e2 { n_indents = e.n_indents +ℤ pos 1 } in
    let e4 : Emitter = with_lines e3 (suc k) body in
    let lower : e.n_indents +ℤ pos 1 +ℤ negsuc 0 ≡ pos k = rw n (ground arith) in
    let e5 : Emitter = record e4 { n_indents = e.n_indents +ℤ pos 1 +ℤ negsuc 0 } in
    let begun : begin_block s true e ≡ ok e3 =
      ap
        (λ q. (if q then ok e else add_line s e) >>= λ f.
          add_line (codes "{") f >>= λ g. ok (increase_indent (pos 1) g))
        (a.1)
      ∙ ap (λ x. x >>= λ f. add_line (codes "{") f >>= λ g. ok (increase_indent (pos 1) g))
          (add_line-with_line e k s n a)
      ∙ ap (λ x. x >>= λ g. ok (increase_indent (pos 1) g))
          (add_line-with_line (with_line e k s) k (codes "{") n open_brace) in
    let ended : end_block false e4 ≡ ok (with_line e5 k (codes "}")) =
      ap (λ x. x >>= λ ls. add_line (codes "}") (record (decrease_indent e4) { lines = ls }))
        (behind_all-EndsInText e2.lines (suc k) e.newline body as_lines
          (behind-EndsInText (with_line e k s).lines k (codes "{") refl))
      ∙ add_line-with_line e5 k (codes "}") lower close_brace in
    let p2 =
      with_line-Prints (with_line e k s) k (codes "{") _ open_brace
        (with_line-Prints e k s ss a p) in
    let p4 = with_lines-Prints e3 (suc k) body _ as_lines p2 in
    let p6 = with_line-Prints e5 k (codes "}") _ close_brace p4 in
    (
      with_line e5 k (codes "}"),
      (
        ap (λ x. x >>= λ f. add_body body f >>= λ g. end_block false g) begun
            ∙ ap (λ x. x >>= λ g. end_block false g)
                (add_body-with_lines e3 (suc k) body deeper as_lines)
            ∙ ended,
        (
          lower,
          p6
              ∙ ap ok (
                  regroup ss (indented e.indent e.newline k s)
                    (indented e.indent e.newline k (codes "{"))
                    (map (indented e.indent e.newline (suc k)) body)
                    (indented e.indent e.newline k (codes "}") ∷ [])),
        ),
      ),
    )
