-- ===== src/Archive/Layout/Bounds.antt =====
-- download/extractor/layout/volume.rs: `volume_index_bounds` on volumes laid end to end.
use griffr.Common.{
  ℕ, zero, suc, ◌-◌, ◌≤◌, ◌<◌, ◌≡◌, refl, ◌↔◌, inl, inr, true, false, some, List, [], ◌∷◌, arith,
  ltb, leb, Bool-cases, nat_eq, get_elem?, text_eq, text_order, flagged_eq, flagged_order,
}
use griffr.Archive.Ranges.{Span, CachedVolumeRange, partition_point}
use griffr.Archive.Ranges.Sorted.{is_cached}
use griffr.Archive.Layout.{VolumeLayout, MultiVolumeLayout, volume_index_bounds}
use griffr.Archive.Layout.Contiguous.{IsContiguous}

-- A volume lies between the bounds of the layout.
pub volume_within :
    (start stop index : ℕ) (ls : List VolumeLayout) (l : VolumeLayout)
    → IsContiguous start ls stop
    → get_elem? ls index ≡ some l
    → (start ≤ l.start) × (l.start ≤ l.end)
volume_within start stop index [] l c h = cc
volume_within start stop zero (x ∷ ls) l c h =
    let same : x ≡ l = ground (arith, h) in rw (← same) (omega (arith, c.0), c.1)
volume_within start stop (suc index) (x ∷ ls) l c h =
    let later = volume_within x.end stop index ls l c.2 h in
    (omega (arith, c.0, c.1, later.0), later.1)

ends_before :
    (start stop index a : ℕ) (ls : List VolumeLayout) (l : VolumeLayout)
    → IsContiguous start ls stop
    → get_elem? ls index ≡ some l
    → (index < partition_point (λ layout. leb layout.end a) ls) ↔ (l.end ≤ a)
unfolding partition_point
ends_before start stop index a [] l c h = cc
ends_before start stop zero a (x ∷ ls) l c h =
    let same : x ≡ l = ground (arith, h) in rw same (ground arith)
ends_before start stop (suc index) a (x ∷ ls) l c h =
    let later = volume_within x.end stop index ls l c.2 h in
    ground (arith, ends_before x.end stop index a ls l c.2 h, later)

starts_before :
    (start stop index a : ℕ) (ls : List VolumeLayout) (l : VolumeLayout)
    → IsContiguous start ls stop
    → get_elem? ls index ≡ some l
    → (index < partition_point (λ layout. ltb layout.start a) ls) ↔ (l.start < a)
unfolding partition_point
starts_before start stop index a [] l c h = cc
starts_before start stop zero a (x ∷ ls) l c h =
    let same : x ≡ l = ground (arith, h) in rw same (ground arith)
starts_before start stop (suc index) a (x ∷ ls) l c h =
    let later = volume_within x.end stop index ls l c.2 h in
    ground (arith, starts_before x.end stop index a ls l c.2 h, later, c.1)

-- For a range that is not empty and volumes laid end to end, a volume has its index within
-- volume_index_bounds just when the range meets the volume.
pub volume_index_bounds_iff :
    (l : MultiVolumeLayout) (range : Span) (index : ℕ) (layout : VolumeLayout)
    → IsContiguous 0 l.layouts l.total_size
    → range.start < range.end
    → get_elem? l.layouts index ≡ some layout
    → (((volume_index_bounds l range).0 ≤ index) × (index < (volume_index_bounds l range).1))
      ↔ ((range.start < layout.end) × (layout.start < range.end))
unfolding volume_index_bounds
volume_index_bounds_iff l range index layout c lt at =
    let nonempty : leb range.end range.start ≡ false = ground (arith, lt) in
    rw nonempty (
      ground (
        arith,
        ends_before 0 l.total_size index range.start l.layouts layout c at,
        starts_before 0 l.total_size index range.end l.layouts layout c at,
      ))

-- Every byte of the stream lies in a volume.
pub record VolumeOf (layouts : List VolumeLayout) (byte : ℕ) : Type 0 where
  pub index : ℕ
  pub layout : VolumeLayout
  pub at : get_elem? layouts index ≡ some layout
  pub from : layout.start ≤ byte
  pub to : byte < layout.end

pub volume_of :
    (start stop byte : ℕ) (ls : List VolumeLayout)
    → IsContiguous start ls stop
    → start ≤ byte
    → byte < stop
    → VolumeOf ls byte
volume_of start stop byte [] c lo hi = absurd (omega (arith, c))
volume_of start stop byte (x ∷ ls) c lo hi = elim (Bool-cases (ltb byte x.end)) [
  | inl e ↦ record {
    index = 0;
    layout = x;
    at = refl;
    from = omega (arith, c.0);
    to = ground (arith, e);
  }
  | inr e ↦
      let later = volume_of x.end stop byte ls c.2 (ground (arith, e)) hi in
      record {
        index = suc later.index;
        layout = later.layout;
        at = later.at;
        from = later.from;
        to = later.to;
      }
]

-- The byte is cached in its volume.
pub record IsHeld (l : MultiVolumeLayout) (byte : ℕ) : Type 0 where
  pub volume : VolumeOf l.layouts byte
  pub cached : List CachedVolumeRange
  pub at : get_elem? l.ranges volume.index ≡ some cached
  pub held : is_cached (byte - volume.layout.start) cached ≡ true
