-- ===== src/DeviceMesh.antt =====
-- `SimpleArray` and `DeviceMesh`, the array of device ids: dtorch/api/cpp/simple_array.{h,cc},
-- dtorch/api/cpp/distributed_spec.{h,cc} and dtorch/api/cpp/device.h. Conversions to and from
-- torch tensors, `Unbind` among them, and printing are not modelled.
pub mod Construct
use Prim.Native.String.{String}
use text.Mathlib.Text.{◌==◌ as str_eq}
use dtorch.Base.{
  ℕ, zero, suc, ◌+◌, ◌-◌, ◌*◌, ◌/◌, ◌%◌, ◌^◌, ◌≤◌, ◌<◌, min, max, ◌≡◌, refl, sym, ap, ◌∙◌, subst,
  fun_ext, ◌≢◌, ◌↔◌, ◌⊎◌, inl, inr, Bool, true, false, not, ◌&&◌, ◌||◌, Option, none, some, List,
  [], ◌∷◌, ◌++◌, map, reverse, arith, ltb, leb, ◌==◌, if◌then◌else◌, ==_refl, ==_iff, ltb→lt,
  lt→ltb, leb→le, Bool-cases, Option-cases, and-eq-true, length, get_elem?, set, take, drop,
  replicate, All, sum, product, length-append, length-set, length-drop, length-take,
  length-replicate, length-map, get_elem?-set_ne, get_elem?-set_self, Outcome, ok, invalid_argument,
  aborted, ◌>>=◌, ◌>>◌, assert_that, throw_unless, of_option, >>=-eq-ok, assert_that-eq-ok,
  throw_unless-eq-ok, ok-injective,
}
use dtorch.Base.Int.{
  ℤ, pos, negsuc, pos_part, neg_part, sub_ℕ, ◌+ℤ◌, ◌-ℤ◌, ◌*ℤ◌, ◌≤ℤ◌, lt_ℤ, le_ℤ, ◌==ℤ◌, max_ℤ,
  to_size, ==ℤ_iff, ==ℤ_refl, max_ℤ_comm, pos-mul,
}
use dtorch.Shape.{Shape, prod, ◌==ₛ◌}

pub data DeviceKind : Type 0 where
  cpu : DeviceKind
  gpu : DeviceKind

abbrev pub kind_eq : DeviceKind → DeviceKind → Bool
kind_eq cpu cpu = true
kind_eq gpu gpu = true
kind_eq cpu gpu = false
kind_eq gpu cpu = false

-- `unordered_set`, as the list of its members in the order of insertion.
unfoldable pub has : ℤ → List ℤ → Bool
has x [] = false
has x (y ∷ ys) = let rest = has x ys in if y ==ℤ x then true else rest

unfoldable pub to_set : List ℤ → List ℤ
unfolding has
to_set [] = []
to_set (x ∷ xs) = let rest = to_set xs in if has x rest then rest else x ∷ rest

-- `mDimensionNamesMap[name] = i`: the last index wins.
unfoldable pub put_name : String → ℕ → List (String × ℕ) → List (String × ℕ)
put_name name i [] = (name, i) ∷ []
put_name name i ((n, j) ∷ rest) =
    if str_eq n name then (n, i) ∷ rest else (n, j) ∷ put_name name i rest

unfoldable pub names_loop : ℕ → List String → List (String × ℕ) → List (String × ℕ)
unfolding put_name
names_loop i [] names = names
names_loop i (n ∷ ns) names = names_loop (suc i) ns (put_name n i names)

pub record SimpleArray : Type 0 where
  pub shape : Shape
  pub dimension_names : List (String × ℕ)
  pub items : List ℤ
  pub item_set : List ℤ

-- The constructor from a shape, the data and the names of the dimensions.
unfoldable pub simple_array : Shape → List ℤ → List String → Outcome SimpleArray
simple_array shape items names = do
  assert_that (ltb 0 (length items))
  total ← prod shape (pos 0) (pos (length shape) -ℤ pos 1)
  assert_that (total ==ℤ pos (length items))
  assert_that (length items == length (to_set items))
  let named = names_loop 0 names []
  throw_unless (length names == 0 || (length shape == length names && length named == length names))
  ok (record { shape = shape; dimension_names = named; items = items; item_set = to_set items })

-- `Size()`, `GetDimensionNameIndex` of a name.
unfoldable pub dimension_index : List (String × ℕ) → String → Outcome ℕ
dimension_index [] name = aborted
dimension_index ((n, i) ∷ rest) name =
    let later = dimension_index rest name in if str_eq n name then ok i else later

pub record DeviceMesh : Type 0 where
  pub kind : DeviceKind
  pub mesh : SimpleArray

abbrev pub num_axis : DeviceMesh → ℕ
num_axis m = length m.mesh.shape

abbrev pub mesh_count : DeviceMesh → ℕ
mesh_count m = length m.mesh.items

-- `IsDistributed`: more than one device.
abbrev pub is_distributed : DeviceMesh → Bool
is_distributed m = ltb 1 (mesh_count m)

pub record Device : Type 0 where
  pub kind : DeviceKind
  pub id : ℤ

-- `IsContainDevice`
unfoldable pub is_contain_device : DeviceMesh → Device → Bool
unfolding has
is_contain_device m d = kind_eq d.kind m.kind && has d.id m.mesh.item_set

-- `ToDevice`: the only device, or the device 0 of the kind
only_item : List ℤ → ℤ
only_item (x ∷ []) = x
only_item _ = pos 0

unfoldable pub to_device : DeviceMesh → Device
unfolding only_item
to_device m = record { kind = m.kind; id = only_item m.mesh.items }

-- `ToDeviceVec`
unfoldable pub to_device_vec : DeviceMesh → List Device
to_device_vec m = map (λ i. record { kind = m.kind; id = i }) m.mesh.items

-- `GetRankId`: the first position of an id in the list of devices
unfoldable pub rank_loop : ℕ → ℤ → List ℤ → Outcome ℕ
rank_loop i current [] = aborted
rank_loop i current (x ∷ xs) =
    let rest = rank_loop (suc i) current xs in if current ==ℤ x then ok i else rest

unfoldable pub get_rank_id : ℤ → List ℤ → Outcome ℕ
unfolding rank_loop
get_rank_id current devices = rank_loop 0 current devices
