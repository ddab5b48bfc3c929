-- ===== src/Storage/Index.antt =====
-- physical_file_storage_single_file of src/templates2/include/primitives/templates2/storage.h as a
-- storage.
use primitives.Prelude.{
  ◌*◌, ◌^◌, ◌<◌, true, ltb, ok, Bool-cases, inl, inr, ℕ, zero, suc, ◌+◌, ◌≡◌, ◌≤◌, refl, ap, false,
  List, [], ◌∷◌, ◌++◌, Option, none, some, Bytes, length, take, drop, length-append, length-drop,
  All, All-append, ◌==◌, if◌then◌else◌, arith,
}
use primitives.Storage.{Record, SingleFile, contains_hash, copy, append_file, single_file, is_some}
use primitives.Storage.Laws.{IsStorage}

-- What a walk over the index copies for the first record with the hash h.
abbrev pub find_copy : ℕ → Bytes → List Record → Option Bytes
find_copy h f [] = none
find_copy h f (r ∷ rs) = if h == r.hash then some (copy r f) else find_copy h f rs

abbrev pub stored_copy : ℕ → SingleFile → Option Bytes
stored_copy h s = find_copy h s.f s.fi

-- A record is about bytes that are there.
abbrev pub IsWithin : Bytes → Record → Type 0
IsWithin f r = r.pos + r.size ≤ length f

abbrev pub IsWhole : SingleFile → Type 0
IsWhole s = All (IsWithin s.f) s.fi

-- An index of n more records ends before the offset wraps.
abbrev pub Fits : ℕ → ℕ → SingleFile → Type 0
Fits size n s = IsWhole s × ((length s.fi + n) * size < 2 ^ 32)

contains_hash-find_copy :
    (size offset h : ℕ) (f : Bytes) (rs : List Record)
    → offset + length rs * size < 2 ^ 32
    → contains_hash size offset h rs ≡ ok (is_some (find_copy h f rs))
unfolding contains_hash
contains_hash-find_copy size offset h f [] b = refl
contains_hash-find_copy size offset h f (r ∷ rs) b = elim (Bool-cases (h == r.hash)) [
  | inl same ↦ rw (same, contains_hash) refl
  | inr other ↦
      let more : ltb (offset + size) (2 ^ 32) ≡ true = ground arith in
      rw (other, more, contains_hash)
        (contains_hash-find_copy size (offset + size) h f rs (omega arith))
]

take-append : (n : ℕ) (a b : Bytes) → n ≤ length a → take n (a ++ b) ≡ take n a
take-append zero a b h = refl
take-append (suc n) [] b h = absurd (omega arith)
take-append (suc n) (x ∷ a) b h = ap (λ s. x ∷ s) (take-append n a b (omega arith))

drop-append : (n : ℕ) (a b : Bytes) → n ≤ length a → drop n (a ++ b) ≡ drop n a ++ b
drop-append zero a b h = refl
drop-append (suc n) [] b h = absurd (omega arith)
drop-append (suc n) (x ∷ a) b h = drop-append n a b (omega arith)

drop_all : (a b : Bytes) → drop (length a) (a ++ b) ≡ b
drop_all [] b = refl
drop_all (x ∷ a) b = drop_all a b

take_all : (a : Bytes) → take (length a) a ≡ a
take_all [] = refl
take_all (x ∷ a) = ap (λ s. x ∷ s) (take_all a)

-- What is appended does not change what the records before copy.
copy-append : (r : Record) (f c : Bytes) → IsWithin f r → copy r (f ++ c) ≡ copy r f
copy-append r f c h =
    rw (drop-append r.pos f c (omega arith))
      (take-append r.size (drop r.pos f) c (omega (arith, length-drop r.pos f)))

find_copy-append :
    (h : ℕ) (f c : Bytes) (k : ℕ) (rs : List Record)
    → All (IsWithin f) rs
    → is_some (find_copy k f rs) ≡ false
    → find_copy h (f ++ c) (rs ++ record { hash = k; pos = length f; size = length c } ∷ [])
      ≡ (if h == k then some c else find_copy h f rs)
find_copy-append h f c k [] w n = rw (drop_all f c, take_all c) refl
find_copy-append h f c k (r ∷ rs) (w, ws) n =
    ground (arith, copy-append r f c w, find_copy-append h f c k rs ws)

stored_copy-add :
    (hash : Bytes → ℕ) (h : ℕ) (c : Bytes) (s : SingleFile)
    → All (IsWithin s.f) s.fi
    → is_some (stored_copy (hash c) s) ≡ false
    → stored_copy h (append_file hash c s) ≡ (if h == hash c then some c else stored_copy h s)
unfolding append_file
stored_copy-add hash h c s w n = find_copy-append h s.f c (hash c) s.fi w n

grown : (f c : Bytes) (rs : List Record) → All (IsWithin f) rs → All (IsWithin (f ++ c)) rs
grown f c [] w = tt
grown f c (r ∷ rs) (w, ws) = (omega (arith, length-append f c), grown f c rs ws)

append_file-IsGood :
    (hash : Bytes → ℕ) (c : Bytes) (s : SingleFile)
    → All (IsWithin s.f) s.fi
    → All (IsWithin (append_file hash c s).f) (append_file hash c s).fi
unfolding append_file
append_file-IsGood hash c s w =
    All-append (IsWithin (s.f ++ c)) s.fi _ (grown s.f c s.fi w)
      (omega (arith, length-append s.f c), tt)

room_less : (size n k : ℕ) → (k + suc n) * size < 2 ^ 32 → (k + n) * size < 2 ^ 32
room_less size n k h = ground arith

append_file-room :
    (size n : ℕ) (hash : Bytes → ℕ) (c : Bytes) (s : SingleFile)
    → (length s.fi + suc n) * size < 2 ^ 32
    → (length (append_file hash c s).fi + n) * size < 2 ^ 32
unfolding append_file
append_file-room size n hash c s h = rw length-append (ground arith)

pub single_file-IsStorage :
    (size : ℕ) (hash : Bytes → ℕ) → IsStorage (single_file size hash) stored_copy (Fits size)
single_file-IsStorage size hash = record {
  contains_lem = λ n h s g. contains_hash-find_copy size 0 h s.f s.fi (ground arith);
  stored-add = λ n h c s g. stored_copy-add hash h c s g.0;
  add-IsGood = λ n c s g. (append_file-IsGood hash c s g.0, append_file-room size n hash c s g.1);
  IsGood_of_suc = λ n s g. (g.0, room_less size n (length s.fi) g.1);
}
