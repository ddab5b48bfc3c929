-- ===== src/Setting/Examples.antt =====
-- The theorem and the limits of the paths of src/settings/src/settings.cpp at single paths.
use primitives.Prelude.{◌≡◌, refl, [], ◌∷◌, ◌++◌, codes, ok, throw, bad_path}
use primitives.Setting.{Parts, path_text, hex, cp2utf8, unescape_setting_char}
use primitives.Setting.Lexer.{parse, tokens, rule, parts_of}
use primitives.Setting.Parse.{parse-path_text}

-- A part with a dot and a tab, and a bare one.
abbrev keys : Parts
keys = (codes "a.b" ++ (9 ∷ [])) ∷ codes "max-size" ∷ []

path_text_of_keys : path_text keys ≡ codes "\"a.b\\u0009\".max-size"
unfolding path_text hex
path_text_of_keys = refl

parse-path_text_example : parse (path_text keys) ≡ ok keys
parse-path_text_example = parse-path_text keys (
  (
    (λ e. cc),
    ((refl, refl, refl), ((refl, refl, refl), ((refl, refl, refl), ((refl, refl, refl), tt)))),
  ),
  (
    (
      (λ e. cc),
      (
        (refl, refl, refl),
        (
          (refl, refl, refl),
          (
            (refl, refl, refl),
            (
              (refl, refl, refl),
              (
                (refl, refl, refl),
                ((refl, refl, refl), ((refl, refl, refl), ((refl, refl, refl), tt))),
              ),
            ),
          ),
        ),
      ),
    ),
    tt,
  ),
)

-- A quote ends the part, a backslash begins an escape, a zero and an empty part are lost.
quote_in_part : parse (path_text (codes "a\"b" ∷ [])) ≡ throw bad_path
unfolding path_text parse tokens rule parts_of
quote_in_part = refl

backslash_in_part : parse (path_text (codes "\\n" ∷ [])) ≡ ok ((10 ∷ []) ∷ [])
unfolding path_text parse tokens rule parts_of unescape_setting_char
backslash_in_part = refl

zero_in_part : parse (path_text ((0 ∷ []) ∷ [])) ≡ ok ([] ∷ [])
unfolding path_text parse tokens rule parts_of hex cp2utf8
zero_in_part = refl

empty_part : parse (path_text ([] ∷ [])) ≡ ok []
unfolding path_text parse
empty_part = refl
