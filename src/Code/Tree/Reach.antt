-- ===== src/Code/Tree/Reach.antt =====
-- Each listed file is in the tree, under the names of its folders and with its own path.
use scrapydweb.Base.{
  ◌≡◌, refl, sym, Bool, true, false, not, &&-true, all, arith, List, [], ◌∷◌, ◌++◌, Text, same,
  same-eq, Bool-cases, inl, inr, append_assoc, All,
}
use scrapydweb.Js.Strings.{split, join, join-split, split-cases, IsCons}
use scrapydweb.Code.Tree.{
  Forest, nil, node, slash, chain, insert, insert_all, in_order, place, sort, build_tree, leads_to,
  is_clear, Has, here, inside, beside,
}
use scrapydweb.Code.Tree.Blocked.{blocked, blocked-nil, insert-clear}

-- A node found in front of no sibling is found in front of any.
widen :
    (names : List Text) (q name path : Text) (dir : Bool) (c s t : Forest)
    → Has names q (node name path dir c nil)
    → Has names q (node name path dir c s)
widen _ q _ _ _ _ s _ (here name path dir c _) = here name path dir c s
widen _ _ _ _ _ _ s _ (inside names q name path c _ h) = inside names q name path c s h
widen _ _ _ _ _ _ s _ (beside names q name path dir c _ h) = elim h [ ]

module _ (before : Text → Text → Bool) where
  Has-place_self :
      (names : List Text) (q name path : Text) (dir : Bool) (children s : Forest)
      → Has names q (node name path dir children nil)
      → Has names q (place before name path dir children s)
  unfolding place
  Has-place_self names q name path dir children nil h = h
  Has-place_self names q name path dir children (node n p d c s) h =
      elim (Bool-cases (in_order before dir name d n)) [
        | inl e ↦ rw e (widen names q name path dir children (node n p d c s) s h)
        | inr e ↦
            rw e (beside names q n p d c _ (Has-place_self names q name path dir children s h))
      ]

  Has-place_rest :
      (names : List Text) (q name path : Text) (dir : Bool) (children s : Forest)
      → Has names q s
      → Has names q (place before name path dir children s)
  unfolding place
  Has-place_rest _ _ name path dir children _ (here n p d c s) =
      elim (Bool-cases (in_order before dir name d n)) [
        | inl e ↦ rw e (beside _ _ name path dir children _ (here n p d c s))
        | inr e ↦ rw e (here n p d c _)
      ]
  Has-place_rest _ _ name path dir children _ (inside names q n p c s h) =
      elim (Bool-cases (in_order before dir name true n)) [
        | inl e ↦ rw e (beside _ _ name path dir children _ (inside names q n p c s h))
        | inr e ↦ rw e (inside names q n p c _ h)
      ]
  Has-place_rest _ _ name path dir children _ (beside names q n p d c s h) =
      elim (Bool-cases (in_order before dir name d n)) [
        | inl e ↦ rw e (beside _ _ name path dir children _ (beside names q n p d c s h))
        | inr e ↦
            rw e (beside names q n p d c _ (Has-place_rest names q name path dir children s h))
      ]

  Has-sort :
      (names : List Text) (q : Text) (f : Forest) → Has names q f → Has names q (sort before f)
  unfolding sort
  Has-sort _ _ _ (here n p d c s) =
      Has-place_self _ _ n p d (sort before c) (sort before s) (here n p d (sort before c) nil)
  Has-sort _ _ _ (inside names q n p c s h) =
      Has-place_self _ _ n p true (sort before c) (sort before s)
        (inside names q n p (sort before c) nil (Has-sort names q c h))
  Has-sort _ _ _ (beside names q n p d c s h) =
      Has-place_rest _ _ n p d (sort before c) (sort before s) (Has-sort names q s h)

-- Inserting a path loses no node.
Has-insert :
    (done parts names : List Text) (q : Text) (f : Forest)
    → Has names q f
    → Has names q (insert done parts f)
unfolding insert
Has-insert done [] names q f h = h
Has-insert done (part ∷ rest) _ _ _ (here n p d c s) = elim (Bool-cases (same n part)) [
  | inl e ↦ rw e (here n p d _ s)
  | inr e ↦ rw e (here n p d c _)
]
Has-insert done (part ∷ rest) _ _ _ (inside names q n p c s h) = elim (Bool-cases (same n part)) [
  | inl e ↦ rw e (inside names q n p _ s (Has-insert (done ++ part ∷ []) rest names q c h))
  | inr e ↦ rw e (inside names q n p c _ h)
]
Has-insert done (part ∷ rest) _ _ _ (beside names q n p d c s h) = elim (Bool-cases (same n part)) [
  | inl e ↦ rw e (beside names q n p d _ s h)
  | inr e ↦ rw e (beside names q n p d c _ (Has-insert done (part ∷ rest) names q s h))
]

-- A node's path is the names that lead to it.
abbrev pub IsPathed : List Text → Forest → Type 0
IsPathed done nil = Unit
IsPathed done (node name path dir children siblings) =
    (path ≡ join slash (done ++ name ∷ []))
    × IsPathed (done ++ name ∷ []) children
    × IsPathed done siblings

renamed :
    (done : List Text) (a b : Text) (f : Forest)
    → a ≡ b
    → IsPathed (done ++ b ∷ []) f
    → IsPathed (done ++ a ∷ []) f
renamed done a b f e h = rw e h

chain-IsPathed : (done parts : List Text) → IsPathed done (chain done parts)
unfolding chain
chain-IsPathed done [] = tt
chain-IsPathed done (part ∷ rest) = (refl, chain-IsPathed (done ++ part ∷ []) rest, tt)

pub insert-IsPathed :
    (done parts : List Text) (f : Forest) → IsPathed done f → IsPathed done (insert done parts f)
unfolding insert
insert-IsPathed done [] f h = h
insert-IsPathed done (part ∷ rest) nil h = chain-IsPathed done (part ∷ rest)
insert-IsPathed done (part ∷ rest) (node name path dir c s) h = elim (Bool-cases (same name part)) [
  | inl e ↦ rw e (
    h.0,
    renamed done name part _ (same-eq name part e) (
        insert-IsPathed (done ++ part ∷ []) rest c
          (renamed done part name c (sym (same-eq name part e)) h.1)),
    h.2,
  )
  | inr e ↦ rw e (h.0, h.1, insert-IsPathed done (part ∷ rest) s h.2)
]

regroup :
    (done : List Text) (part : Text) (rest : List Text) (f : Forest)
    → Has rest (join slash ((done ++ part ∷ []) ++ rest)) f
    → Has rest (join slash (done ++ part ∷ rest)) f
regroup done part rest f h = rw (sym (append_assoc done (part ∷ []) rest)) h

-- The place of a path's last part, behind the parts `done`.
Has-chain :
    (done : List Text) (part : Text) (rest : List Text)
    → Has (part ∷ rest) (join slash (done ++ part ∷ rest)) (chain done (part ∷ rest))
unfolding chain
Has-chain done part [] = here part (join slash (done ++ part ∷ [])) false nil nil
Has-chain done part (r ∷ rest) =
    inside (r ∷ rest) (join slash (done ++ part ∷ r ∷ rest)) part (join slash (done ++ part ∷ [])) _
      nil (regroup done part (r ∷ rest) _ (Has-chain (done ++ part ∷ []) r rest))

here_at :
    (done : List Text) (name part path : Text) (dir : Bool) (c s : Forest)
    → name ≡ part
    → path ≡ join slash (done ++ name ∷ [])
    → Has (part ∷ []) (join slash (done ++ part ∷ [])) (node name path dir c s)
here_at done name part path dir c s e h = rw (sym e, sym h) (here name path dir c s)

inside_at :
    (names : List Text) (q name part path : Text) (dir : Bool) (c s : Forest)
    → name ≡ part
    → dir ≡ true
    → Has names q c
    → Has (part ∷ names) q (node name path dir c s)
inside_at names q name part path dir c s e d h = rw (sym e, d) (inside names q name path c s h)

Has-inserted :
    (done : List Text) (part : Text) (rest : List Text) (f : Forest)
    → IsPathed done f
    → blocked (part ∷ rest) f ≡ false
    → Has (part ∷ rest) (join slash (done ++ part ∷ rest)) (insert done (part ∷ rest) f)
unfolding insert blocked
Has-inserted done part rest nil h b = Has-chain done part rest
Has-inserted done part [] (node name path dir c s) h b = elim (Bool-cases (same name part)) [
  | inl e ↦ rw e (here_at done name part path dir c s (same-eq name part e) h.0)
  | inr e ↦
      rw e (beside _ _ name path dir c _ (Has-inserted done part [] s h.2 (ground (arith, b, e))))
]
Has-inserted done part (r ∷ rest) (node name path dir c s) h b =
    elim (Bool-cases (same name part)) [
      | inl e ↦ rw e (
          inside_at (r ∷ rest) _ name part path dir _ s (same-eq name part e) (ground (arith, b, e))
            (regroup done part (r ∷ rest) _ (
              Has-inserted (done ++ part ∷ []) r rest c
                (renamed done part name c (sym (same-eq name part e)) h.1) (ground (arith, b, e)))))
      | inr e ↦ rw e (
          beside _ _ name path dir c _
            (Has-inserted done part (r ∷ rest) s h.2 (ground (arith, b, e))))
    ]

Has-insert_all :
    (paths names : List Text) (q : Text) (f : Forest)
    → Has names q f
    → Has names q (insert_all paths f)
unfolding insert_all
Has-insert_all [] names q f h = h
Has-insert_all (p ∷ ps) names q f h =
    Has-insert_all ps names q _ (Has-insert [] (split 47 p) names q f h)

Has-parts :
    (ps : List Text) (f : Forest)
    → IsCons ps
    → IsPathed [] f
    → blocked ps f ≡ false
    → Has ps (join slash ps) (insert [] ps f)
Has-parts ps f (q, qs, e) h b = rw e (Has-inserted [] q qs f h (rw e at b))

Has-split :
    (p : Text) (f : Forest)
    → IsPathed [] f
    → blocked (split 47 p) f ≡ false
    → Has (split 47 p) p (insert [] (split 47 p) f)
Has-split p f h b = rw (join-split 47 p) at (Has-parts (split 47 p) f (split-cases 47 p) h b)

abbrev IsClear : Forest → Text → Type 0
IsClear f p = blocked (split 47 p) f ≡ false

IsClear-behind :
    (p : Text) (f : Forest) (ps : List Text)
    → all (λ q. not (leads_to (split 47 p) (split 47 q))) ps ≡ true
    → All (IsClear f) ps
    → All (IsClear (insert [] (split 47 p) f)) ps
unfolding all
IsClear-behind p f [] h k = tt
IsClear-behind p f (q ∷ ps) h k = (
  insert-clear [] (split 47 p) f (split 47 q) k.0 (ground (arith, h)),
  IsClear-behind p f ps (ground (arith, h)) k.1,
)

All-IsClear : (ps : List Text) → All (IsClear nil) ps
All-IsClear [] = tt
All-IsClear (p ∷ ps) = (blocked-nil (split 47 p), All-IsClear ps)

All-listed :
    (paths : List Text) (f : Forest)
    → is_clear paths ≡ true
    → All (IsClear f) paths
    → IsPathed [] f
    → All (λ p. Has (split 47 p) p (insert_all paths f)) paths
unfolding insert_all is_clear
All-listed [] f b c h = tt
All-listed (p ∷ ps) f b c h =
    let clear = &&-true (all (λ q. not (leads_to (split 47 p) (split 47 q))) ps) (is_clear ps) b in
    (
      Has-insert_all ps (split 47 p) p _ (Has-split p f h c.0),
      All-listed ps _ clear.1 (IsClear-behind p f ps clear.0 c.1)
          (insert-IsPathed [] (split 47 p) f h),
    )

All-sorted :
    (before : Text → Text → Bool) (f : Forest) (ps : List Text)
    → All (λ p. Has (split 47 p) p f) ps
    → All (λ p. Has (split 47 p) p (sort before f)) ps
All-sorted before f [] h = tt
All-sorted before f (p ∷ ps) h = (Has-sort before (split 47 p) p f h.0, All-sorted before f ps h.1)

-- When no path of the list is a folder of a later one, each path of the list is, in the sorted tree, the
-- path of a node that is reached by opening, in turn, the folders that have the path's parts before the
-- last for names.
pub build_tree-Has :
    (before : Text → Text → Bool) (paths : List Text)
    → is_clear paths ≡ true
    → All (λ p. Has (split 47 p) p (build_tree before paths)) paths
unfolding build_tree
build_tree-Has before paths b =
    All-sorted before (insert_all paths nil) paths (All-listed paths nil b (All-IsClear paths) tt)
