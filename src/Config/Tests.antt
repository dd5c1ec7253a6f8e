-- ===== src/Config/Tests.antt =====
-- The settings at a concrete environment.
use distq_go.Common.{◌≡◌, ◌⊎◌, true, false, none, some, [], ◌∷◌, refl}
use distq_go.Config.{
  Text, Environment, is_empty, split_list, is_space, split, items, trim_left, trim_right,
  server_addr,
}
use distq_go.Config.Items.{is_vacant, server_addr_panics}

-- Every variable is ", ,".
abbrev only_commas : Environment
only_commas name = 44 ∷ 32 ∷ 44 ∷ []

-- "a, b ,"
split_list_trims : split_list (97 ∷ 44 ∷ 32 ∷ 98 ∷ 32 ∷ 44 ∷ []) ≡ (97 ∷ []) ∷ (98 ∷ []) ∷ []
unfolding split items trim_left trim_right is_space
split_list_trims = refl

server_addr_panics_example :
    ((is_empty (44 ∷ 32 ∷ 44 ∷ []) ≡ false)
      × (is_vacant (44 ∷ 32 ∷ 44 ∷ []) ≡ true)
      × (server_addr only_commas ≡ none))
    ⊎ (((is_empty (44 ∷ 32 ∷ 44 ∷ []) ≡ true) ⊎ (is_vacant (44 ∷ 32 ∷ 44 ∷ []) ≡ false))
        × ((a : Text) × (server_addr only_commas ≡ some a)))
server_addr_panics_example = server_addr_panics only_commas
