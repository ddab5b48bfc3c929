-- ===== src/Emitter/Examples.antt =====
-- Emitters at concrete inputs.
use primitives.Prelude.{◌≡◌, refl, [], ◌∷◌, ◌++◌, codes, ok, ◌>>=◌}
use primitives.Prelude.Int.{pos}
use primitives.Emitter.Editing.{empty_lines, add_text, trim_end}
use primitives.Emitter.{
  no_lines, behind, text, strings, end_block, begin_block, Emitter, new_emitter, get_text, split,
}
use primitives.Emitter.Blocks.{block, Prints, block_lines, block-Prints}

abbrev emitter : Emitter
emitter = new_emitter (codes "  ") (codes "\n")

function_text :
    (block (codes "f()") (codes "a;" ∷ codes "b;" ∷ []) emitter >>= get_text)
    ≡ ok (codes "f()\n{\n  a;\n  b;\n}\n")
unfolding begin_block end_block get_text
function_text = refl

block-Prints_example :
    (f : Emitter) × ((block (codes "f()") (codes "a;" ∷ codes "b;" ∷ []) emitter ≡ ok f)
      × ((f.n_indents ≡ pos 0)
          × Prints f (
              []
              ++ block_lines emitter.indent emitter.newline 0
                  (codes "f()")
                  (codes "a;" ∷ codes "b;" ∷ []))))
unfolding split strings
block-Prints_example =
    block-Prints emitter 0 (codes "f()") (codes "a;" ∷ codes "b;" ∷ []) [] refl (refl, refl)
      (refl, refl) (refl, refl) ((refl, refl), ((refl, refl), tt)) refl

-- A line of text and three without.
abbrev spaced : Emitter
spaced = record emitter {
  lines =
      behind
        (behind (behind (behind no_lines (text (pos 0) (codes "a"))) (text (pos 0) []))
          (text (pos 0) []))
        (text (pos 0) []);
}

added_and_trimmed :
    (add_text (codes "bcd") spaced >>= λ e. trim_end 2 e >>= λ f. empty_lines 0 f >>= get_text)
    ≡ ok (codes "a\n\n\nb\n")
unfolding add_text trim_end empty_lines get_text
added_and_trimmed = refl
