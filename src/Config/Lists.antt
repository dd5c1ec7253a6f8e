-- ===== src/Config/Lists.antt =====
-- internal/config/config.go: reading back a list that was written with commas.
use distq_go.Common.{◌≡◌, refl, ap, ◌∙◌, false, List, [], ◌∷◌, ◌++◌, All}
use distq_go.Config.{
  Text, is_comma, is_empty, split, trim_left, trim_right, trim_space, items, split_list,
}

-- strings.Join(parts, ",")
unfoldable pub join : List Text → Text
join [] = []
join (p ∷ []) = p
join (p ∷ p' ∷ ps) = p ++ 44 ∷ join (p' ∷ ps)

-- A part that has no comma, with the item that it spells once the space around it is gone.
abbrev pub Spells : Text × Text → Type 0
Spells (part, item) =
    All (λ c. is_comma c ≡ false) part × (trim_space part ≡ item) × (is_empty item ≡ false)

abbrev pub parts_of : List (Text × Text) → List Text
parts_of [] = []
parts_of ((part, item) ∷ ps) = part ∷ parts_of ps

abbrev pub items_of : List (Text × Text) → List Text
items_of [] = []
items_of ((part, item) ∷ ps) = item ∷ items_of ps

-- A part without a comma, alone and before a comma.
split_one : (p : Text) → All (λ c. is_comma c ≡ false) p → split p ≡ p ∷ []
unfolding split
split_one [] h = refl
split_one (c ∷ p) h = rw (h.0, split_one p h.1)

split_more :
    (p rest : Text) → All (λ c. is_comma c ≡ false) p → split (p ++ 44 ∷ rest) ≡ p ∷ split rest
unfolding split
split_more [] rest h = refl
split_more (c ∷ p) rest h = rw (h.0, split_more p rest h.1)

items_spelled : (ps : List (Text × Text)) → All Spells ps → items (parts_of ps) ≡ items_of ps
unfolding items
items_spelled [] h = refl
items_spelled ((part, item) ∷ ps) h = rw (h.0.1, h.0.2, items_spelled ps h.1)

split-join :
    (p : Text × Text) (ps : List (Text × Text))
    → All Spells (p ∷ ps)
    → split (join (parts_of (p ∷ ps))) ≡ parts_of (p ∷ ps)
unfolding join
split-join (part, item) [] h = split_one part h.0.0
split-join (part, item) (p ∷ ps) h =
    split_more part (join (parts_of (p ∷ ps))) h.0.0 ∙ ap (◌∷◌ part) (split-join p ps h.1)

-- A list that is written with commas is read back: whatever space stands around the items, splitList
-- gives them in order. (No part has a comma, and each has more than space.)
pub split_list-join :
    (ps : List (Text × Text)) → All Spells ps → split_list (join (parts_of ps)) ≡ items_of ps
split_list-join [] h = unfold join split items trim_left trim_right in refl
split_list-join (p ∷ ps) h = ap items (split-join p ps h) ∙ items_spelled (p ∷ ps) h
