-- ===== src/Common/Outages.antt =====
-- Which of the coming calls of a database fail, as a list; after its end none does.
use mathlib.Core.Bool.{Bool, false}
use mathlib.Core.List.{List, [], ◌∷◌}

unfoldable pub first_of : List Bool → Bool
first_of [] = false
first_of (b ∷ bs) = b

unfoldable pub rest_of : List Bool → List Bool
rest_of [] = []
rest_of (b ∷ bs) = bs
