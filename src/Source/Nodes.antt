-- ===== src/Source/Nodes.antt =====
-- Documents as trees, which have the operations that src/source/src/source.cpp uses.
use primitives.Prelude.{
  ◌≡◌, refl, inl, inr, Bool, true, false, List, [], ◌∷◌, ◌++◌, Option, none, some, Bytes,
  if◌then◌else◌, Outcome, ok, throw, bad_document, arith,
}
use primitives.Prelude.Int.{ℤ}
use primitives.Prelude.Ord.{list_beq, list_beq_iff, nat_ord}
use primitives.Source.Document.{Document, IsMap, IsLawful}

mutual
  pub data Node : Type 0 where
    nothing : Node
    text : Bytes → Node
    number : ℤ → Node
    texts : List Bytes → Node
    object : Members → Node

  pub data Members : Type 0 where
    no_members : Members
    member : Bytes → Node → Members → Members

abbrev pub look : Bytes → Members → Option Node
look k no_members = none
look k (member m v ms) = if list_beq k m then some v else look k ms

abbrev pub put : Bytes → Node → Members → Members
put k v no_members = member k v no_members
put k v (member m w ms) = if list_beq k m then member k v ms else member m w (put k v ms)

abbrev pub find_node : Bytes → Node → Option Node
find_node k (object ms) = look k ms
find_node k _ = none

abbrev pub set_node : Bytes → Node → Node → Node
set_node k v nothing = object (member k v no_members)
set_node k v (object ms) = object (put k v ms)
set_node k v j = j

abbrev pub push_node : Node → Node → Node
push_node (text s) nothing = texts (s ∷ [])
push_node (text s) (texts ss) = texts (ss ++ s ∷ [])
push_node v j = j

abbrev pub node_text : Node → Outcome Bytes
node_text (text s) = ok s
node_text _ = throw bad_document

abbrev pub node_number : Node → Outcome ℤ
node_number (number n) = ok n
node_number _ = throw bad_document

abbrev pub node_texts : Node → Outcome (List Bytes)
node_texts (texts ss) = ok ss
node_texts _ = throw bad_document

abbrev pub has_members : Node → Bool
has_members (object ms) = true
has_members _ = false

abbrev pub members_of : Members → List (Bytes × Node)
members_of no_members = []
members_of (member k v ms) = (k, v) ∷ members_of ms

abbrev pub node_members : Node → List (Bytes × Node)
node_members (object ms) = members_of ms
node_members _ = []

abbrev pub nodes : Document
nodes = record {
  Value = Node;
  null = nothing;
  of_string = text;
  of_int = number;
  find = find_node;
  set = set_node;
  push_back = push_node;
  get_string = node_text;
  get_int = node_number;
  get_strings = node_texts;
  is_object = has_members;
  members = node_members;
}

look-put :
    (k m : Bytes) (v : Node) (ms : Members)
    → look k (put m v ms) ≡ (if list_beq k m then some v else look k ms)
look-put k m v no_members = refl
look-put k m v (member i w ms) =
    ground (arith, list_beq_iff k m, list_beq_iff m i, list_beq_iff k i, look-put k m v ms)

find-set_node :
    (k m : Bytes) (v j : Node)
    → IsMap nodes j
    → find_node k (set_node m v j) ≡ (if list_beq k m then some v else find_node k j)
find-set_node k m v nothing w = refl
find-set_node k m v (object ms) w = look-put k m v ms
find-set_node k m v (text s) (inl e) = cc
find-set_node k m v (text s) (inr e) = cc
find-set_node k m v (number n) (inl e) = cc
find-set_node k m v (number n) (inr e) = cc
find-set_node k m v (texts ss) (inl e) = cc
find-set_node k m v (texts ss) (inr e) = cc

has_members-set : (k : Bytes) (v j : Node) → IsMap nodes j → has_members (set_node k v j) ≡ true
has_members-set k v nothing w = refl
has_members-set k v (object ms) w = refl
has_members-set k v (text s) (inl e) = cc
has_members-set k v (text s) (inr e) = cc
has_members-set k v (number n) (inl e) = cc
has_members-set k v (number n) (inr e) = cc
has_members-set k v (texts ss) (inl e) = cc
has_members-set k v (texts ss) (inr e) = cc

node_texts-push :
    (s : Bytes) (ss : List Bytes) (j : Node)
    → node_texts j ≡ ok ss
    → node_texts (push_node (text s) j) ≡ ok (ss ++ s ∷ [])
node_texts-push s ss nothing e = cc
node_texts-push s ss (object ms) e = cc
node_texts-push s ss (text t) e = cc
node_texts-push s ss (number n) e = cc
node_texts-push s ss (texts us) e = let f : us ≡ ss = cc in rw f refl

pub nodes-IsLawful : IsLawful nodes
nodes-IsLawful = record {
  find-null = λ k. refl;
  find-set = find-set_node;
  is_object-set = has_members-set;
  members-set = λ k v. refl;
  get_string-of_string = λ s. refl;
  get_int-of_int = λ n. refl;
  get_strings-one = λ s. refl;
  get_strings-push_back = node_texts-push;
}
