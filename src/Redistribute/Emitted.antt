-- ===== src/Redistribute/Emitted.antt =====
-- The convert operators that a redistribution between two distributed tensors emits.
use mathlib.Core.List.{append-nil, append_assoc}
use dtorch.Base.{
  All-append, ℕ, ◌≡◌, refl, sym, ap, ◌∙◌, subst, inl, inr, Bool, true, false, not, ◌&&◌, ◌||◌, List,
  [], ◌∷◌, ◌++◌, map, arith, ◌==◌, if◌then◌else◌, ==_iff, Bool-cases, length, All, ok, assert_that,
  throw_unless, >>=-eq-ok, assert_that-eq-ok, throw_unless-eq-ok, ok-injective,
}
use dtorch.Base.Int.{ℤ}
use dtorch.Shape.{Shape}
use dtorch.PlacementSeq.{
  PlacementSeq, to_replicate_when_dim_size_equal_one, shard_dim_to_positive_number,
  get_convert_order, assign_dim,
}
use dtorch.PlacementSeq.ConvertOrder.{IsExclusive}
use dtorch.PlacementSeq.OneByOne.{ConvertsTo, get_convert_order-ConvertsTo}
use dtorch.DeviceMesh.{num_axis, is_distributed}
use dtorch.DistributedSpec.{check_valid}
use dtorch.Redistribute.Rewritten.{
  get_convert_order-same, rewritten-IsExclusive, rewritten_source-IsExclusive,
}
use dtorch.Redistribute.{
  rewritten_source, Conversion, ConvertParam, add_into_graph_constructor, convert_loop,
  convert_placements_one_by_one, run_func,
}

-- The placements after each conversion of an order.
abbrev pub path : PlacementSeq → List ℕ → PlacementSeq → List PlacementSeq
path dest [] cur = []
path dest (d ∷ dims) cur = assign_dim dest cur d ∷ path dest dims (assign_dim dest cur d)

abbrev pub at_source : Conversion → PlacementSeq → ConvertParam
at_source c placements = record {
  data_kind = c.src_data_kind;
  device_mesh = c.src_device_mesh;
  placements = placements;
}

abbrev pub at_destination : Conversion → PlacementSeq → ConvertParam
at_destination c placements = record {
  data_kind = c.dest_data_kind;
  device_mesh = c.dest_device_mesh;
  placements = placements;
}

abbrev pub IsValidParam : Shape → ℤ → ConvertParam → Type 0
IsValidParam shape total p = check_valid shape p.device_mesh p.placements total ≡ ok true

add_into_graph_constructor-eq-ok :
    (c : Conversion) (total : ℤ) (p : ConvertParam) (operators : List ConvertParam)
    {out : List ConvertParam}
    → (not c.convert_data_kind && not c.convert_device_mesh && not c.convert_placement) ≡ false
    → add_into_graph_constructor c total p operators ≡ ok out
    → (operators ++ p ∷ [] ≡ out) × IsValidParam c.shape total p
unfolding add_into_graph_constructor
add_into_graph_constructor-eq-ok c total p operators changes h =
    let h0 = rw changes at h in
    let (valid, a, h1) = >>=-eq-ok (check_valid c.shape p.device_mesh p.placements total) _ h0 in
    let (u, b, h2) = >>=-eq-ok (throw_unless valid) _ h1 in
    (ok-injective h2, a ∙ ap ok (throw_unless-eq-ok valid b))

convert_loop-path :
    (c : Conversion) (total : ℤ) (dims : List ℕ) (cur : PlacementSeq)
    (operators : List ConvertParam) {out : List ConvertParam}
    → c.convert_placement ≡ true
    → convert_loop c total dims cur operators ≡ ok out
    → (out ≡ operators ++ map (at_source c) (path c.dest_placements dims cur))
      × All (IsValidParam c.shape total) (map (at_source c) (path c.dest_placements dims cur))
unfolding convert_loop
convert_loop-path c total [] cur operators changes h =
    (sym (ok-injective h) ∙ sym (append-nil operators), tt)
convert_loop-path c total (d ∷ dims) cur operators changes h =
    let next = assign_dim c.dest_placements cur d in
    let (more, a, h1) =
      >>=-eq-ok (add_into_graph_constructor c total (at_source c next) operators) _ h in
    let active : (not c.convert_data_kind && not c.convert_device_mesh && not c.convert_placement)
        ≡ false =
      ground arith in
    let (added, valid) =
      add_into_graph_constructor-eq-ok c total (at_source c next) operators active a in
    let (rest, all_valid) = convert_loop-path c total dims next more changes h1 in
    let steps = map (at_source c) (path c.dest_placements dims next) in
    (
      rest
          ∙ ap (λ z. z ++ steps) (sym added)
          ∙ append_assoc operators (at_source c next ∷ []) steps,
      (valid, all_valid),
    )

-- What a redistribution emits: for a destination `dest`, an order in which each conversion changes
-- one axis and which ends in it, the convert operators of that order at the source's data kind and
-- mesh, and a last operator exactly if the data kind or the mesh changes. All are valid.
pub record Emits (c : Conversion) (total : ℤ) (out : List ConvertParam) : Type 0 where
  pub replicates : PlacementSeq
  pub dest : PlacementSeq
  pub order : List ℕ
  pub normalised :
      to_replicate_when_dim_size_equal_one c.dest_device_mesh.mesh.shape c.dest_placements
      ≡ ok replicates
  pub positive : shard_dim_to_positive_number c.shape replicates ≡ dest
  pub ordered : get_convert_order (rewritten_source c dest) dest ≡ ok order
  pub reaches : ConvertsTo dest order (rewritten_source c dest)
  pub shares_nothing : c.shared ≡ true → order ≡ []
  pub emitted :
      out
      ≡ map (at_source c) (path dest order (rewritten_source c dest))
        ++ (if c.convert_data_kind || c.convert_device_mesh then at_destination c dest ∷ [] else [])
  pub valid : All (IsValidParam c.shape total) out

not_added :
    (c : Conversion) (total : ℤ) (p : ConvertParam) (operators : List ConvertParam)
    → (not c.convert_data_kind && not c.convert_device_mesh && not c.convert_placement) ≡ true
    → add_into_graph_constructor c total p operators ≡ ok operators
unfolding add_into_graph_constructor
not_added c total p operators nothing = rw nothing refl

-- The last operator, after the placements have been converted.
last_operator :
    (c : Conversion) (total : ℤ) (p : ConvertParam) (operators : List ConvertParam)
    {out : List ConvertParam}
    → c.convert_placement ≡ false
    → All (IsValidParam c.shape total) operators
    → add_into_graph_constructor c total p operators ≡ ok out
    → (out ≡ operators ++ (if c.convert_data_kind || c.convert_device_mesh then p ∷ [] else []))
      × All (IsValidParam c.shape total) out
last_operator c total p operators {out} off valid h =
    elim (Bool-cases (c.convert_data_kind || c.convert_device_mesh)) [
      | inl e ↦
          let changes : (not c.convert_data_kind
                && not c.convert_device_mesh
                && not c.convert_placement)
              ≡ false =
            ground arith in
          let (added, more) = add_into_graph_constructor-eq-ok c total p operators changes h in
          (
            sym added ∙ ap (λ z. operators ++ (if z then p ∷ [] else [])) (sym e),
            subst (All (IsValidParam c.shape total)) added
                (All-append (IsValidParam c.shape total) operators (p ∷ []) valid (more, tt)),
          )
      | inr e ↦
          let nothing : (not c.convert_data_kind
                && not c.convert_device_mesh
                && not c.convert_placement)
              ≡ true =
            ground arith in
          let same : operators ≡ out =
            ok-injective (sym (not_added c total p operators nothing) ∙ h) in
          (
            sym same
                ∙ sym (append-nil operators)
                ∙ ap (λ z. operators ++ (if z then p ∷ [] else [])) (sym e),
            subst (All (IsValidParam c.shape total)) same valid,
          )
    ]

abbrev converted_to : Conversion → PlacementSeq → Conversion
converted_to c dest = record c {
  src_placements = dest;
  dest_placements = dest;
  convert_placement = false;
}

then_branch {ℓ} :
    {A : Type ℓ} (b : Bool) {x z : A} (y : A) → b ≡ true → (if b then x else y) ≡ z → x ≡ z
then_branch true y e h = h
then_branch false y e h = cc

one_by_one-path :
    (c : Conversion) (total : ℤ) {converted : Conversion} {operators : List ConvertParam}
    → c.convert_placement ≡ true
    → is_distributed c.src_device_mesh ≡ true
    → is_distributed c.dest_device_mesh ≡ true
    → All IsExclusive c.src_placements
    → convert_placements_one_by_one c total ≡ ok (converted, operators)
    → (order : List ℕ) × (get_convert_order c.src_placements c.dest_placements ≡ ok order)
      × ConvertsTo c.dest_placements order c.src_placements
      × (operators ≡ map (at_source c) (path c.dest_placements order c.src_placements))
      × All (IsValidParam c.shape total) operators
      × (converted_to c c.dest_placements ≡ converted)
unfolding convert_placements_one_by_one
one_by_one-path c total {converted} {operators} on from to exclusive h =
    let test : (c.convert_placement
          && is_distributed c.src_device_mesh
          && is_distributed c.dest_device_mesh)
        ≡ true =
      ground arith in
    let h0 = then_branch _ (ok (c, [])) test h in
    let (w, e, h1) =
      >>=-eq-ok (assert_that (length c.src_placements == length c.dest_placements)) _ h0 in
    let (order, f, h2) = >>=-eq-ok (get_convert_order c.src_placements c.dest_placements) _ h1 in
    let (ops, g, h3) = >>=-eq-ok (convert_loop c total order c.src_placements []) _ h2 in
    let size : length c.src_placements ≡ length c.dest_placements =
      (==_iff _ _).0 (assert_that-eq-ok (length c.src_placements == length c.dest_placements) e) in
    let (order', f', reaches) =
      get_convert_order-ConvertsTo c.src_placements c.dest_placements size exclusive in
    let same_order : order' ≡ order = ok-injective (sym f' ∙ f) in
    let (steps, valid) = convert_loop-path c total order c.src_placements [] on g in
    let q : (converted_to c c.dest_placements, ops) ≡ (converted, operators) = ok-injective h3 in
    let same : ops ≡ operators = ap (λ z. z.1) q in
    (
      order,
      f,
      subst (λ z. ConvertsTo c.dest_placements z c.src_placements) same_order reaches,
      sym same ∙ steps,
      subst (All (IsValidParam c.shape total)) (sym steps ∙ same) valid,
      ap (λ z. z.0) q,
    )

-- A redistribution between two distributed tensors that returns, with the flag `mConvertPlacement`
-- set and no placement of either both a shard and replicated, has converted the placements one
-- axis at a time, from the source's to the destination's in the order of `GetConvertOrder`, all
-- of it at the source's data kind and mesh, and has then changed the data kind and the mesh in
-- one operator if they change; every operator has placements that are valid on its mesh. The
-- destination's placements are rewritten in place first; where the source's share their vector
-- they are rewritten too, and no axis is converted.
pub run_func-Emits :
    (c : Conversion) (total : ℤ) {out : List ConvertParam}
    → c.convert_placement ≡ true
    → is_distributed c.src_device_mesh ≡ true
    → is_distributed c.dest_device_mesh ≡ true
    → All IsExclusive c.src_placements
    → All IsExclusive c.dest_placements
    → run_func c total ≡ ok out
    → Emits c total out
unfolding run_func
run_func-Emits c total {out} on from to exclusive exclusive_dest h =
    let (u, a, h1) =
      >>=-eq-ok
        (throw_unless (
          not (
            is_distributed c.src_device_mesh
            && is_distributed c.dest_device_mesh
            && not (num_axis c.src_device_mesh == num_axis c.dest_device_mesh))))
        _ h in
    let (reps, b, h2) =
      >>=-eq-ok
        (to_replicate_when_dim_size_equal_one c.dest_device_mesh.mesh.shape c.dest_placements) _
        h1 in
    let dest = shard_dim_to_positive_number c.shape reps in
    let exclusive_new = rewritten-IsExclusive c exclusive_dest b in
    let source = rewritten_source c dest in
    let start = record c { src_placements = source; dest_placements = dest } in
    let ((converted, operators), d, h3) =
      >>=-eq-ok (convert_placements_one_by_one start total) _ h2 in
    let (order, f, reaches, steps, valid, e) =
      one_by_one-path start total on from to
        (rewritten_source-IsExclusive c dest exclusive exclusive_new) d in
    let h4 : add_into_graph_constructor (converted_to c dest) total (at_destination c dest)
          operators
        ≡ ok out =
      subst
        (λ z.
          add_into_graph_constructor z total (at_destination z z.dest_placements) operators
          ≡ ok out)
        (sym e) h3 in
    let (whole, all_valid) =
      last_operator (converted_to c dest) total (at_destination c dest) operators refl valid h4 in
    record {
      replicates = reps;
      dest = dest;
      order = order;
      normalised = b;
      positive = refl;
      ordered = f;
      reaches = reaches;
      shares_nothing = λ share.
          let same : source ≡ dest = ap (λ z. if z then dest else c.src_placements) share in
          get_convert_order-same dest exclusive_new
            (ap (λ z. get_convert_order z dest) (sym same) ∙ f);
      emitted =
          whole
          ∙ ap
              (λ z.
                z
                ++ (if c.convert_data_kind || c.convert_device_mesh
                    then at_destination c dest ∷ []
                    else []))
              steps;
      valid = all_valid;
    }
