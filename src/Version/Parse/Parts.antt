-- ===== src/Version/Parse/Parts.antt =====
-- The machine reads back parts that a dot separates.
use primitives.Prelude.{
  ◌∙◌, ℕ, ◌≡◌, ◌≢◌, refl, Bool, true, false, List, [], ◌∷◌, ◌++◌, append_assoc, append-nil, some,
  arith, Bytes, All, Outcome, ok,
}
use primitives.Version.Print.Spelling.{spelled}
use primitives.Version.Parse.{parts}

module _ {A : Type 0} (in_part : ℕ → Bool) (leave : Bytes → Outcome A) (print : A → Bytes) where
  -- A part that the machine reads and gives back.
  pub record IsReadable (a : A) : Type 0 where
    pub within : All (λ c. in_part c ≡ true) (print a)
    pub inhabited : print a ≢ []
    pub read_back : leave (print a) ≡ ok a

  parts_run :
      (p rest current : Bytes) (found : List A)
      → All (λ c. in_part c ≡ true) p
      → parts in_part leave (p ++ rest) current found
        ≡ parts in_part leave rest (current ++ p) found
  unfolding parts
  parts_run [] rest current found h = rw append-nil
  parts_run (c ∷ p) rest current found (e, h) =
      ground (arith, parts_run p rest (current ++ c ∷ []) found h, append_assoc current (c ∷ []) p)

  parts_end :
      (a : A) (found : List A)
      → IsReadable a
      → parts in_part leave [] (print a) found ≡ ok (some (found ++ a ∷ []))
  unfolding parts
  parts_end a found r = leaves (print a) r.inhabited r.read_back
    where
      leaves :
          (p : Bytes)
          → p ≢ []
          → leave p ≡ ok a
          → parts in_part leave [] p found ≡ ok (some (found ++ a ∷ []))
      leaves [] h e = absurd (h refl)
      leaves (c ∷ p) h e = rw e

  parts_dot :
      (a : A) (s : Bytes) (found : List A)
      → in_part b'.' ≡ false
      → IsReadable a
      → parts in_part leave (b'.' ∷ s) (print a) found ≡ parts in_part leave s [] (found ++ a ∷ [])
  unfolding parts
  parts_dot a s found d r = leaves (print a) r.inhabited r.read_back
    where
      leaves :
          (p : Bytes)
          → p ≢ []
          → leave p ≡ ok a
          → parts in_part leave (b'.' ∷ s) p found ≡ parts in_part leave s [] (found ++ a ∷ [])
      leaves [] h e = absurd (h refl)
      leaves (c ∷ p) h e = ground arith

  parts-spelled_from :
      (a : A) (more found : List A)
      → in_part b'.' ≡ false
      → All IsReadable (a ∷ more)
      → parts in_part leave (spelled print (a ∷ more)) [] found ≡ ok (some (found ++ a ∷ more))
  parts-spelled_from a [] found d (r, rs) =
      let run = parts_run (print a) [] [] found r.within in
      rw append-nil at run ∙ parts_end a found r
  parts-spelled_from a (b ∷ more) found d (r, rs) =
      parts_run (print a) (b'.' ∷ spelled print (b ∷ more)) [] found r.within
      ∙ parts_dot a (spelled print (b ∷ more)) found d r
      ∙ parts-spelled_from b more (found ++ a ∷ []) d rs
      ∙ rw append_assoc

  -- Readable parts are read back from their spelling.
  pub parts-spelled :
      (found : List A)
      → found ≢ []
      → in_part b'.' ≡ false
      → All IsReadable found
      → parts in_part leave (spelled print found) [] [] ≡ ok (some found)
  parts-spelled [] h d r = absurd (h refl)
  parts-spelled (a ∷ more) h d r = parts-spelled_from a more [] d r
