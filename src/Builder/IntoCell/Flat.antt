-- ===== src/Builder/IntoCell/Flat.antt =====
-- Cells of level 0: what `into_cell` reads of the references.
use ton_labs_types.Base.{
  ℕ, suc, ◌+◌, ◌%◌, ◌^◌, ◌≤◌, ◌<◌, ◌≡◌, refl, max, List, ◌∷◌, ◌++◌, arith, [],
}
use ton_labs_types.Types.{ok}
use ton_labs_types.Cell.Layout.Build.{be_u16}
use ton_labs_types.Cell.Tree.{Cell}
use ton_labs_types.Cell.Tree as Tree
use ton_labs_types.Cell.Finalize.{children_mask, add_depths, add_hashes}
use ton_labs_types.Builder.{or_masks}

-- A cell of level 0 whose tree has at most `deep` cells below it on a path.
pub record IsFlat (deep : ℕ) (c : Cell) : Type 0 where
  pub level_mask : Tree.level_mask c ≡ 0
  pub depth : (d : ℕ) × (Tree.depth c 0 ≡ ok d) × (d ≤ deep)
  pub hash : (h : List ℕ) × (Tree.hash c 0 ≡ ok h)

abbrev pub AllFlat : ℕ → List Cell → Type 0
AllFlat deep [] = Unit
AllFlat deep (c ∷ cs) = IsFlat deep c × AllFlat deep cs

pub or_masks-flat : (deep : ℕ) (cs : List Cell) → AllFlat deep cs → or_masks 0 cs ≡ 0
unfolding or_masks
or_masks-flat deep [] f = refl
or_masks-flat deep (c ∷ cs) (f, fs) = rw f.level_mask (or_masks-flat deep cs fs)

pub children_mask-flat : (deep : ℕ) (cs : List Cell) → AllFlat deep cs → children_mask 0 cs ≡ 0
unfolding children_mask
children_mask-flat deep [] f = refl
children_mask-flat deep (c ∷ cs) (f, fs) = rw f.level_mask (children_mask-flat deep cs fs)

pub add_depths-flat :
    (deep acc : ℕ) (cs : List Cell)
    → deep < 2048
    → acc ≤ suc deep
    → AllFlat deep cs
    → (d : ℕ) × (ds : List ℕ) × (add_depths 2048 0 acc cs ≡ ok (d, ds)) × (d ≤ suc deep)
unfolding add_depths
add_depths-flat deep acc [] small low f = (acc, [], refl, low)
add_depths-flat deep acc (c ∷ cs) small low (f, fs) =
    let (d, e, l) = f.depth in
    let (d', ds, e', l') =
      add_depths-flat deep (max acc ((d + 1) % 2 ^ 16)) cs small (omega arith) fs in
    (d', be_u16 d ++ ds, ground (arith, e, e'), l')

pub add_hashes-flat :
    (deep : ℕ) (cs : List Cell) → AllFlat deep cs → (hs : List ℕ) × (add_hashes 0 cs ≡ ok hs)
unfolding add_hashes
add_hashes-flat deep [] f = ([], refl)
add_hashes-flat deep (c ∷ cs) (f, fs) =
    let (h, e) = f.hash in
    let (hs, e') = add_hashes-flat deep cs fs in (h ++ hs, ground (arith, e, e'))
