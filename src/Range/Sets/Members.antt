-- ===== src/Range/Sets/Members.antt =====
-- The operations on ranges as operations on sets of versions.
use primitives.Prelude.{
  ◌&&◌, ◌++◌, ◌≡◌, refl, true, false, ◌||◌, List, [], ◌∷◌, some, All, All-append, arith, Bool-cases,
  Option-cases, inl, inr, if◌then◌else◌,
}
use primitives.Version.{Version, lt, gt}
use primitives.Range.{Side, RangePair, contains, meet, join, max_side, min_side, side_lt}
use primitives.Range.Sides.{Agree}
use primitives.Range.Pairs.{contains-meet, contains-join, second-join, second-meet}
use primitives.Range.Sets.{
  intersect, meet_rows, meet_row, add_range, settle, add_pair, contains_version,
}

-- A family of right sides that agree with one another, such as all open ones.
module _ (P : Side → Type 0) (agree : (s t : Side) → P s → P t → Agree s t) where
  abbrev pub RightOf : RangePair → Type 0
  RightOf r = P r.second

  max_side-P : (s t : Side) → P s → P t → P (max_side s t)
  unfolding max_side
  max_side-P s t hs ht = elim (side_lt s t) as (λ b. P (if b then t else s)) [
    | true ↦ ht
    | false ↦ hs
  ]

  min_side-P : (s t : Side) → P s → P t → P (min_side s t)
  unfolding min_side
  min_side-P s t hs ht = elim (side_lt t s) as (λ b. P (if b then t else s)) [
    | true ↦ ht
    | false ↦ hs
  ]

  join-RightOf : (p q r : RangePair) → RightOf p → RightOf q → join p q ≡ some r → RightOf r
  join-RightOf p q r hp hq e = rw (second-join p q r e) (max_side-P p.second q.second hp hq)

  meet-RightOf : (p q r : RangePair) → RightOf p → RightOf q → meet p q ≡ some r → RightOf r
  meet-RightOf p q r hp hq e = rw (second-meet p q r e) (min_side-P p.second q.second hp hq)

  settle-RightOf :
      (current : RangePair) (rest : List RangePair)
      → RightOf current
      → All RightOf rest
      → All RightOf (settle current rest)
  unfolding settle
  settle-RightOf current [] h hs = (h, tt)
  settle-RightOf current (i ∷ rest) h (hi, hs) = elim (Bool-cases (lt current.second.v i.first.v)) [
    | inl e ↦ rw (e, settle) (h, (hi, hs))
    | inr e ↦ elim (Option-cases (join current i)) [
      | inl j ↦ rw (e, j, settle) (h, settle-RightOf i rest hi hs)
      | inr (u, j) ↦ rw (e, j, settle) (settle-RightOf u rest (join-RightOf current i u h hi j) hs)
    ]
  ]

  add_pair-RightOf :
      (r : List RangePair) (p : RangePair) → All RightOf r → RightOf p → All RightOf (add_pair r p)
  unfolding add_pair
  add_pair-RightOf [] p hs h = (h, tt)
  add_pair-RightOf (i ∷ rest) p (hi, hs) h = elim (Bool-cases (lt i.second.v p.first.v)) [
    | inl e ↦ rw (e, add_pair) (hi, add_pair-RightOf rest p hs h)
    | inr e ↦ elim (Bool-cases (gt i.first.v p.second.v)) [
      | inl g ↦ rw (e, g, add_pair) (h, (hi, All-append RightOf rest (p ∷ []) hs (h, tt)))
      | inr g ↦ elim (Option-cases (join i p)) [
        | inl j ↦ rw (e, g, j, add_pair) (hi, settle-RightOf p rest h hs)
        | inr (u, j) ↦ rw (e, g, j, add_pair) (settle-RightOf u rest (join-RightOf i p u hi h j) hs)
      ]
    ]
  ]

  module _ (x : Version) where
    contains-settle :
        (current : RangePair) (rest : List RangePair)
        → RightOf current
        → All RightOf rest
        → contains_version (settle current rest) x ≡ (contains current x || contains_version rest x)
    unfolding settle contains_version
    contains-settle current [] h hs = refl
    contains-settle current (i ∷ rest) h (hi, hs) =
        elim (Bool-cases (lt current.second.v i.first.v)) [
          | inl e ↦ rw (e, settle)
          | inr e ↦ elim (Option-cases (join current i)) [
            | inl j ↦ rw (e, j, settle) (ground (arith, contains-settle i rest hi hs))
            | inr (u, j) ↦
                rw (e, j, settle)
                  (ground (
                    arith,
                    contains-settle u rest (join-RightOf current i u h hi j) hs,
                    contains-join current i (agree _ _ h hi) x u j,
                  ))
          ]
        ]

    contains-append :
        (r s : List RangePair)
        → contains_version (r ++ s) x ≡ (contains_version r x || contains_version s x)
    unfolding contains_version
    contains-append [] s = refl
    contains-append (p ∷ r) s = ground (arith, contains-append r s)

    -- operator|= with a pair adds exactly the versions of the pair, whichever branch it takes: merged
    -- into its neighbours, or inserted before, between or behind them. The right sides of all pairs
    -- are from a family in which two at one version are both strong or both weak.
    pub contains-add_pair :
        (r : List RangePair) (p : RangePair)
        → All RightOf r
        → RightOf p
        → contains_version (add_pair r p) x ≡ (contains_version r x || contains p x)
    unfolding add_pair contains_version
    contains-add_pair [] p hs h = ground arith
    contains-add_pair (i ∷ rest) p (hi, hs) h = elim (Bool-cases (lt i.second.v p.first.v)) [
      | inl e ↦ rw (e, add_pair) (ground (arith, contains-add_pair rest p hs h))
      | inr e ↦ elim (Bool-cases (gt i.first.v p.second.v)) [
        | inl g ↦ rw (e, g, add_pair) (ground (arith, contains-append rest (p ∷ [])))
        | inr g ↦ elim (Option-cases (join i p)) [
          | inl j ↦ rw (e, g, j, add_pair) (ground (arith, contains-settle p rest h hs))
          | inr (u, j) ↦
              rw (e, g, j, add_pair)
                (ground (
                  arith,
                  contains-settle u rest (join-RightOf i p u hi h j) hs,
                  contains-join i p (agree _ _ hi h) x u j,
                ))
        ]
      ]
    ]

    -- operator| on ranges is the union of their versions, if the right sides of all pairs are from a
    -- family in which two at one version are both strong or both weak.
    pub contains-add_range :
        (r s : List RangePair)
        → All RightOf r
        → All RightOf s
        → contains_version (add_range r s) x ≡ (contains_version r x || contains_version s x)
    unfolding add_range contains_version
    contains-add_range r [] hr hs = ground arith
    contains-add_range r (p ∷ ps) hr (hp, hs) = ground (
      arith,
      contains-add_range (add_pair r p) ps (add_pair-RightOf r p hr hp) hs,
      contains-add_pair r p hr hp,
    )

    meet_row_lem :
        (p : RangePair) (qs vr : List RangePair)
        → RightOf p
        → All RightOf qs
        → All RightOf vr
        → All RightOf (meet_row p qs vr)
          × (contains_version (meet_row p qs vr) x
              ≡ (contains_version vr x || (contains p x && contains_version qs x)))
    unfolding meet_row contains_version
    meet_row_lem p [] vr hp hq hv = (hv, ground arith)
    meet_row_lem p (q ∷ qs) vr hp (hq, hs) hv = elim (Option-cases (meet p q)) [
      | inl e ↦
          let (k, c) = meet_row_lem p qs vr hp hs hv in
          let n = contains-meet p q (agree _ _ hp hq) x in
          rw (e, meet_row) (k, ground (arith, c, rw e at n))
      | inr (o, e) ↦
          let ho = meet-RightOf p q o hp hq e in
          let (k, c) = meet_row_lem p qs (add_pair vr o) hp hs (add_pair-RightOf vr o hv ho) in
          let n = contains-meet p q (agree _ _ hp hq) x in
          rw (e, meet_row) (k, ground (arith, c, rw e at n, contains-add_pair vr o hv ho))
    ]

    meet_rows_lem :
        (ps qs vr : List RangePair)
        → All RightOf ps
        → All RightOf qs
        → All RightOf vr
        → contains_version (meet_rows ps qs vr) x
          ≡ (contains_version vr x || (contains_version ps x && contains_version qs x))
    unfolding meet_rows contains_version
    meet_rows_lem [] qs vr hp hq hv = ground arith
    meet_rows_lem (p ∷ ps) qs vr (h, hp) hq hv =
        let (k, c) = meet_row_lem p qs vr h hq hv in
        ground (arith, c, meet_rows_lem ps qs (meet_row p qs vr) hp hq k)

    -- operator& on ranges is the intersection of their versions, if the right sides of all pairs are
    -- from a family in which two at one version are both strong or both weak.
    pub contains-intersect :
        (r s : List RangePair)
        → All RightOf r
        → All RightOf s
        → contains_version (intersect r s) x ≡ (contains_version r x && contains_version s x)
    unfolding intersect contains_version
    contains-intersect r s hr hs = meet_rows_lem r s [] hr hs tt
