-- ===== src/Emitter/Editing.antt =====
-- The operations of Emitter and CppEmitter in src/emitter/include/primitives/emitter.h on the lines
-- at the end, and on emitters in lines.
use primitives.Prelude.{
  ℕ, zero, suc, ◌-◌, ◌≡◌, refl, ap, true, false, not, ◌&&◌, ◌++◌, [], ◌∷◌, Bytes, codes, length,
  length-append, take, inl, inr, Bool-cases, ltb, if◌then◌else◌, Outcome, ok, undefined, ◌>>=◌,
  arith,
}
use primitives.Prelude.Int.{ℤ, pos, pos_part, neg_part, sub_ℕ, ◌+ℤ◌, ◌==ℤ◌}
use primitives.Emitter.{
  Line, text, inline, Lines, no_lines, behind, Emitter, is_blank, has_lines, line_indents,
  line_text, add_line, add_line_at, end_block, increase_indent,
}

-- Line::setText, which does not reach the emitter of an EmitterLine.
abbrev pub set_text : Bytes → Line → Line
set_text t (text n s) = text n t
set_text t (inline n indent newline ls) = inline n indent newline ls

abbrev pub set_indents : ℤ → Line → Line
set_indents n (text m s) = text n s
set_indents n (inline m indent newline ls) = inline n indent newline ls

-- The changes of addText to lines.back(), and of trimEnd.
abbrev pub add_to_last : ℤ → Bytes → Lines → Outcome Lines
add_to_last n s no_lines = undefined
add_to_last n s (behind ls l) =
    let l' = if not (is_blank s) && (line_indents l ==ℤ pos 0) then set_indents n l else l in
    line_text l' >>= λ t. ok (behind ls (set_text (t ++ s) l'))

unfoldable pub add_text : Bytes → Emitter → Outcome Emitter
unfolding add_line line_text
add_text s e = (if has_lines e.lines then ok e else add_line [] e) >>= λ f.
    add_to_last f.n_indents s f.lines >>= λ ls. ok (record f { lines = ls })

abbrev pub trim_last : ℕ → Lines → Outcome Lines
trim_last n no_lines = ok no_lines
trim_last n (behind ls l) = line_text l >>= λ t.
    let sz = length t in ok (behind ls (set_text (take (sz - (if ltb sz n then sz else n)) t) l))

unfoldable pub trim_end : ℕ → Emitter → Outcome Emitter
unfolding line_text
trim_end n e = trim_last n e.lines >>= λ ls. ok (record e { lines = ls })

abbrev pub number_of : Lines → ℕ
number_of no_lines = 0
number_of (behind ls l) = suc (number_of ls)

-- The first lines, without n at the end; lines.resize.
abbrev pub drop_lines : ℕ → Lines → Lines
drop_lines zero ls = ls
drop_lines (suc n) no_lines = no_lines
drop_lines (suc n) (behind ls l) = drop_lines n ls

-- removeLines(n), of n that are not negative
unfoldable pub remove_lines : ℕ → Emitter → Emitter
remove_lines n e = record e { lines = drop_lines n e.lines }

-- The loop of emptyLines over the lines without text at the end.
unfoldable pub blank_lines : Lines → Outcome ℕ
unfolding line_text
blank_lines no_lines = ok 0
blank_lines (behind ls l) = line_text l >>= λ t. elim (is_blank t) [
  | true ↦ blank_lines ls >>= λ n. ok (suc n)
  | false ↦ ok 0
]

-- addLine() n times
abbrev pub add_lines : ℕ → Emitter → Outcome Emitter
add_lines zero e = ok e
add_lines (suc n) e = add_line [] e >>= λ f. add_lines n f

-- emptyLines(n), of n that are not negative
unfoldable pub empty_lines : ℕ → Emitter → Outcome Emitter
unfolding blank_lines add_line
empty_lines n e = blank_lines e.lines >>= λ k.
    if ltb k n then add_lines (n - k) e else ok (record e { lines = drop_lines (k - n) e.lines })

-- addEmitter, and createInlineEmitter with what is written to the emitter that it returns
unfoldable pub add_emitter : Emitter → Emitter → Emitter
add_emitter emitter e =
    let l = inline e.n_indents emitter.indent emitter.newline emitter.lines in
    record e { lines = behind e.lines l }

-- increaseIndent and decreaseIndent with a line, and those of CppEmitter on functions and guards
unfoldable pub increase_indent_after : Bytes → ℤ → Emitter → Outcome Emitter
unfolding add_line
increase_indent_after s n e = add_line s e >>= λ f. ok (increase_indent n f)

unfoldable pub decrease_indent_before : Bytes → ℤ → Emitter → Outcome Emitter
unfolding add_line
decrease_indent_before s n e =
    add_line s (record e { n_indents = e.n_indents +ℤ sub_ℕ (neg_part n) (pos_part n) })

unfoldable pub end_function : Emitter → Outcome Emitter
unfolding end_block add_line
end_function e = end_block false e >>= λ f. add_line [] f

unfoldable pub ifdef : Bytes → Emitter → Outcome Emitter
unfolding add_line_at
ifdef s e = add_line_at (pos 0) (codes "#ifdef " ++ s) e

unfoldable pub endif : Emitter → Outcome Emitter
unfolding add_line_at
endif e = add_line_at (pos 0) (codes "#endif") e

abbrev pub clear : Emitter → Emitter
clear e = record e { lines = no_lines; namespaces = [] }

take-append_length : (t s : Bytes) → take (length t) (t ++ s) ≡ t
take-append_length [] s = refl
take-append_length (c ∷ t) s = ap (λ u. c ∷ u) (take-append_length t s)

trimmed :
    (t s : Bytes)
    → let sz = length (t ++ s) in
      take (sz - (if ltb sz (length s) then sz else length s)) (t ++ s) ≡ t
trimmed t s =
    let e : length (t ++ s)
          - (if ltb (length (t ++ s)) (length s) then length (t ++ s) else length s)
        ≡ length t =
      ground (arith, length-append t s) in
    rw e (take-append_length t s)

-- With a line of text at the end, what addText adds is what trimEnd of its length takes away.
pub trim_last-add_to_last :
    (n m : ℤ) (s t : Bytes) (ls : Lines)
    → (add_to_last n s (behind ls (text m t)) >>= λ ks. trim_last (length s) ks)
      ≡ ok (behind ls (text (if not (is_blank s) && (m ==ℤ pos 0) then n else m) t))
unfolding line_text
trim_last-add_to_last n m s t ls = elim (Bool-cases (not (is_blank s) && (m ==ℤ pos 0))) [
  | inl outer ↦ rw (outer, trimmed t s) refl
  | inr inner ↦ rw (inner, trimmed t s) refl
]
