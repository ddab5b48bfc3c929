-- ===== src/Range/Sets/Front.antt =====
-- The order of the intervals after operator|= with a pair that lies before the first one.
use primitives.Prelude.{◌≡◌, ◌∙◌, Bool, true, false, not, ◌&&◌, List, [], ◌∷◌, ◌++◌, arith}
use primitives.Version.{lt, gt}
use primitives.Version.Order.{gt-lt, lt_negative_trans, lt_asymm}
use primitives.Range.{RangePair}
use primitives.Range.Sets.{add_pair}

-- "always sorted with less": no interval begins before the one in front of it.
abbrev pub sorted : List RangePair → Bool
sorted [] = true
sorted (p ∷ []) = true
sorted (p ∷ q ∷ r) = not (lt q.first.v p.first.v) && sorted (q ∷ r)

-- In a sorted vector the last interval begins no earlier than the first.
last-ge :
    (i : RangePair) (rest : List RangePair) (p : RangePair)
    → sorted (i ∷ (rest ++ p ∷ [])) ≡ true
    → lt p.first.v i.first.v ≡ false
last-ge i [] p h = ground arith
last-ge i (j ∷ rest) p h =
    lt_negative_trans p.first.v j.first.v i.first.v (last-ge j rest p (ground arith)) (ground arith)

-- A pair that ends before the first interval begins is inserted in front of it and pushed to the back
-- as well: the vector is then no longer sorted, if the pair does not begin behind its own end.
pub add_pair_front :
    (i : RangePair) (rest : List RangePair) (p : RangePair)
    → lt p.second.v i.first.v ≡ true
    → lt p.second.v p.first.v ≡ false
    → lt i.second.v i.first.v ≡ false
    → sorted (add_pair (i ∷ rest) p) ≡ false
unfolding add_pair
add_pair_front i rest p apart proper proper' =
    let behind : lt i.second.v p.first.v ≡ false =
      lt_negative_trans i.second.v i.first.v p.first.v proper' (
        lt_negative_trans i.first.v p.second.v p.first.v (lt_asymm p.second.v i.first.v apart)
          proper) in
    let g : gt i.first.v p.second.v ≡ true = gt-lt i.first.v p.second.v ∙ apart in
    rw (behind, g, add_pair)
      (ground (arith, last-ge i rest p, lt_negative_trans p.second.v p.first.v i.first.v proper))
