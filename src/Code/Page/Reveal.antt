-- ===== src/Code/Page/Reveal.antt =====
-- The folders above the file that is selected first are open.
use scrapydweb.Base.{
  ◌≡◌, refl, sym, ap, Bool, true, false, ◌||◌, some, List, [], ◌∷◌, ◌++◌, Text, truthy, same,
  same_refl, same_iff, includes_text, includes_text-append, All, append_assoc, arith,
}
use scrapydweb.Js.Strings.{split, join}
use scrapydweb.Code.Tree.{slash}
use scrapydweb.Code.Page.{
  CodeState, add, folders, add_all, but_last, first_file, select_first, has_selected, auto_select,
}

-- The paths of the folders that `parts` lead through: each prefix of the parts, joined.
unfoldable pub folder_paths : List Text → List Text → List Text
folder_paths done [] = []
folder_paths done (p ∷ ps) = join slash (done ++ p ∷ []) ∷ folder_paths (done ++ p ∷ []) ps

join-snoc :
    (d : Text) (ds : List Text) (p : Text)
    → join slash ((d ∷ ds) ++ p ∷ []) ≡ join slash (d ∷ ds) ++ (slash ++ p)
unfolding join
join-snoc d [] p = refl
join-snoc d (e ∷ ds) p =
    rw (join-snoc e ds p) (sym (append_assoc d (slash ++ join slash (e ∷ ds)) (slash ++ p)))

truthy-append : (s t : Text) → truthy s ≡ true → truthy (s ++ t) ≡ true
truthy-append [] t h = cc
truthy-append (c ∷ s) t h = refl

truthy-join : (d : Text) (ds : List Text) → truthy d ≡ true → truthy (join slash (d ∷ ds)) ≡ true
unfolding join
truthy-join d [] h = h
truthy-join d (e ∷ ds) h = truthy-append d _ h

folders-behind :
    (d : Text) (ds ps : List Text)
    → truthy d ≡ true
    → folders (join slash (d ∷ ds)) ps ≡ folder_paths (d ∷ ds) ps
unfolding folders folder_paths
folders-behind d ds [] h = refl
folders-behind d ds (p ∷ ps) h =
    rw (truthy-join d ds h, sym (join-snoc d ds p))
      (ap (λ (t : List Text). join slash ((d ∷ ds) ++ p ∷ []) ∷ t)
        (folders-behind d (ds ++ p ∷ []) ps h))

folders-paths :
    (p : Text) (ps : List Text) → truthy p ≡ true → folders [] (p ∷ ps) ≡ folder_paths [] (p ∷ ps)
unfolding folders folder_paths join
folders-paths p ps h = ap (λ (t : List Text). p ∷ t) (folders-behind p [] ps h)

includes-add :
    (p q : Text) (set : List Text) → includes_text (add p set) q ≡ (includes_text set q || same p q)
unfolding add
includes-add p q set = ground (arith, includes_text-append set p q, same_iff p q)

add_all-keeps :
    (ps : List Text) (q : Text) (set : List Text)
    → includes_text set q ≡ true
    → includes_text (add_all ps set) q ≡ true
unfolding add_all
add_all-keeps [] q set h = h
add_all-keeps (p ∷ ps) q set h = add_all-keeps ps q (add p set) (rw (includes-add p q set, h) refl)

add_all-adds : (ps set : List Text) → All (λ q. includes_text (add_all ps set) q ≡ true) ps
unfolding add_all
add_all-adds [] set = tt
add_all-adds (p ∷ ps) set = (
  add_all-keeps ps p (add p set) (rw (includes-add p p set, same_refl p) ground arith),
  add_all-adds ps (add p set),
)

abbrev pub first_truthy : List Text → Bool
first_truthy [] = true
first_truthy (p ∷ ps) = truthy p

folders-folder_paths :
    (ps : List Text)
    → first_truthy ps ≡ true
    → folders [] (but_last ps) ≡ folder_paths [] (but_last ps)
folders-folder_paths [] h = unfold folders folder_paths in refl
folders-folder_paths (p ∷ []) h = unfold folders folder_paths in refl
folders-folder_paths (p ∷ q ∷ ps) h = folders-paths p (but_last (q ∷ ps)) h

-- When no file is selected, the first file of a spider, or the first file, is selected, and every
-- folder above it is open, for a path that does not begin with a slash.
pub auto_select-opens :
    (f : Text) (fs : List Text) (s : CodeState)
    → has_selected s.selected ≡ false
    → first_truthy (split 47 (first_file f fs)) ≡ true
    → ((auto_select (f ∷ fs) s).selected ≡ some (first_file f fs))
      × All
          (λ q. includes_text (auto_select (f ∷ fs) s).expanded q ≡ true)
          (folder_paths [] (but_last (split 47 (first_file f fs))))
unfolding auto_select select_first
auto_select-opens f fs s h k =
    rw (h, sym (folders-folder_paths (split 47 (first_file f fs)) k))
      (refl, add_all-adds _ s.expanded)
