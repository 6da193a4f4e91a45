-- ===== src/Tests/Groups.antt =====
-- The groups of an array of 2 x 2 x 2 devices along its middle axis.
use dtorch.Base.{ℕ, ◌≡◌, refl, some, List, [], ◌∷◌, arith, get_elem?, ok}
use dtorch.Base.Int.{ℤ, pos}
use dtorch.DeviceMesh.{SimpleArray}
use dtorch.Stride.RoundTrip.{IsArrayShape}
use dtorch.ThreadGroup.{ThreadGroupInfo, thread_group_info}
use dtorch.ThreadGroup.Groups.{IsGroup}
use dtorch.ThreadGroup.Whole.{search_of, thread_group_info-IsGroup}

abbrev cube_ids : List ℤ
cube_ids = pos 0 ∷ pos 1 ∷ pos 2 ∷ pos 3 ∷ pos 4 ∷ pos 5 ∷ pos 6 ∷ pos 7 ∷ []

abbrev cube : SimpleArray
cube = record {
  shape = pos 2 ∷ pos 2 ∷ pos 2 ∷ [];
  dimension_names = [];
  items = cube_ids;
  item_set = cube_ids;
}

cube-IsArrayShape : IsArrayShape (2 ∷ 2 ∷ 2 ∷ [])
cube-IsArrayShape = record {
  positive = (omega arith, (omega arith, (omega arith, tt)));
  bounded = omega arith;
}

thread_group_info-IsGroup_example :
    (mid : ℕ) × (get_elem? (2 ∷ 2 ∷ 2 ∷ []) 1 ≡ some mid)
    × ((info : ThreadGroupInfo) × (thread_group_info cube 1 (pos 5) ≡ ok info)
        × IsGroup (search_of (2 ∷ 2 ∷ 2 ∷ []) 1 mid cube_ids (pos 5)) info)
thread_group_info-IsGroup_example =
    thread_group_info-IsGroup cube (2 ∷ 2 ∷ 2 ∷ []) 1 5 (pos 5) refl cube-IsArrayShape refl
      (omega arith) refl
