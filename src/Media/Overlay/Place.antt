-- ===== src/Media/Overlay/Place.antt =====
-- `osd_rgn_create` of src/media.c: where the overlay stands in the picture.
use montion_sense.Prelude.{
  ℕ, ◌+◌, ◌-◌, ◌*◌, ◌/◌, ◌%◌, ◌^◌, ◌≤◌, ◌<◌, ◌≡◌, refl, sym, subst, ap₂, arith, Bool, true, false,
  not, Option, none, some, ◌⊎◌, inl, inr, if_elim, Rc, ok,
}
use montion_sense.Prelude.Int.{ℤ, pos, sub_ℤ, to_int, to_u32, up_align_to_16}
use montion_sense.Config.{Config, OsdPosition, top_left, top_right, bottom_left, bottom_right}
use montion_sense.Media.{Board, Answers, Region}
use montion_sense.Media.Overlay.{near, far_x, far_y, place, osd_rgn_create, with_regions, osd_init}

-- A stretch of `len` pixels inside a side of `size`, that starts at a multiple of 16, at least `m` and less
-- than `m + 16` from the side's start.
abbrev pub NearStart : ℕ → ℕ → ℕ → ℤ → Type 0
NearStart size len m c =
    (x : ℕ) × (c ≡ pos x) × (x % 16 ≡ 0) × (m ≤ x) × (x < m + 16) × (x + len ≤ size)

-- The same at the side's end, at most `m` from it.
abbrev pub NearEnd : ℕ → ℕ → ℕ → ℤ → Type 0
NearEnd size len m c =
    (x : ℕ) × (c ≡ pos x)
    × (x % 16 ≡ 0)
    × (size ≤ x + len + m)
    × (x + len + m < size + 16)
    × (x + len ≤ size)

-- A region of `w` by `h` in the corner of a picture of `width` by `height`.
abbrev pub InCorner : OsdPosition → ℕ → ℕ → ℕ → ℕ → ℕ → ℤ × ℤ → Type 0
InCorner top_left width height w h m (x, y) = NearStart width w m x × NearStart height h m y
InCorner top_right width height w h m (x, y) = NearEnd width w m x × NearStart height h m y
InCorner bottom_left width height w h m (x, y) = NearStart width w m x × NearEnd height h m y
InCorner bottom_right width height w h m (x, y) = NearEnd width w m x × NearEnd height h m y

up_align-NearStart :
    (size len m : ℕ) → m + 15 + len ≤ size → NearStart size len m (up_align_to_16 (pos m))
unfolding up_align_to_16
up_align-NearStart size len m h =
    ((m + 15) / 16 * 16, refl, omega arith, omega arith, omega arith, omega arith)

sub_pos : (m n : ℕ) → n ≤ m → sub_ℤ (pos m) (pos n) ≡ pos (m - n)
sub_pos m n h = ground arith

to_int_small : (n : ℕ) → n < 2 ^ 31 → to_int n ≡ pos n
unfolding to_int
to_int_small n h = let e : n % 2 ^ 32 ≡ n = omega arith in rw e (ground arith)

up_align-NearEnd :
    (size len m : ℕ)
    → size < 2 ^ 31
    → 15 ≤ m
    → m + 15 + len ≤ size
    → NearEnd size len m (up_align_to_16 (sub_ℤ (sub_ℤ (to_int size) (pos len)) (pos m)))
unfolding up_align_to_16
up_align-NearEnd size len m s k h = rw (to_int_small size s) (
    rw (sub_pos size len (omega arith)) (
      rw (sub_pos (size - len) m (omega arith)) (
        (size - len - m + 15) / 16 * 16,
        refl,
        omega arith,
        omega arith,
        omega arith,
        omega arith,
      )))

module _ {Float : Type 0} (cfg : Config Float) where
  place-InCorner :
      (p : OsdPosition) (w h m : ℕ)
      → cfg.osd.margin ≡ pos m
      → 15 ≤ m
      → cfg.h264.width < 2 ^ 31
      → cfg.h264.height < 2 ^ 31
      → m + 15 + w ≤ cfg.h264.width
      → m + 15 + h ≤ cfg.h264.height
      → InCorner p cfg.h264.width cfg.h264.height w h m (place cfg p (pos w) (pos h))
  unfolding place near far_x far_y
  place-InCorner top_left w h m e k s t i j =
      rw e (up_align-NearStart _ w m i, up_align-NearStart _ h m j)
  place-InCorner top_right w h m e k s t i j =
      rw e (up_align-NearEnd _ w m s k i, up_align-NearStart _ h m j)
  place-InCorner bottom_left w h m e k s t i j =
      rw e (up_align-NearStart _ w m i, up_align-NearEnd _ h m t k j)
  place-InCorner bottom_right w h m e k s t i j =
      rw e (up_align-NearEnd _ w m s k i, up_align-NearEnd _ h m t k j)

  abbrev region : ℤ → ℤ → Region
  region w height =
      let at = place cfg cfg.osd.position w height in
      record { width = to_u32 w; height = to_u32 height; x = at.0; y = at.1 }

  with_regions_ok :
      (r s : Option Region) (b : Board) (c : Region)
      → (r ≡ none) ⊎ (r ≡ some c)
      → (s ≡ none) ⊎ (s ≡ some c)
      → (with_regions cfg r s b).0 ≡ ok
      → ((with_regions cfg r s b).1.region_h264 ≡ some c)
        × ((with_regions cfg r s b).1.region_mjpeg ≡ some c)
  unfolding with_regions
  with_regions_ok none s b c p q h = absurd cc
  with_regions_ok (some r) none b c p q h = absurd cc
  with_regions_ok (some r) (some s) b c (inr p) (inr q) h = (p, q)
  with_regions_ok (some r) (some s) b c (inl p) q h = absurd cc
  with_regions_ok (some r) (some s) b c (inr p) (inl q) h = absurd cc

  created :
      (c d : Bool) (w height : ℤ)
      → (osd_rgn_create cfg c d w height ≡ none)
        ⊎ (osd_rgn_create cfg c d w height ≡ some (region w height))
  unfolding osd_rgn_create
  created false d w height = inl refl
  created true false w height = inl refl
  created true true w height = inr refl

  osd_init_ok :
      (a : Answers) (b : Board)
      → (osd_init cfg a b).0 ≡ ok
      → let r = region (up_align_to_16 a.text_width) (up_align_to_16 cfg.osd.font_size) in
        ((osd_init cfg a b).1.region_h264 ≡ some r) × ((osd_init cfg a b).1.region_mjpeg ≡ some r)
  unfolding osd_init
  osd_init_ok a b =
      let r = region (up_align_to_16 a.text_width) (up_align_to_16 cfg.osd.font_size) in
      if_elim
        (λ (o : Rc × Board). o.0 ≡ ok → (o.1.region_h264 ≡ some r) × (o.1.region_mjpeg ≡ some r))
        (not a.font) _ _ (λ _ h. absurd cc)
        (λ _. with_regions_ok _ _ _ _ (created _ _ _ _) (created _ _ _ _))

  abbrev at16 : ℕ → ℕ
  at16 n = (n + 15) / 16 * 16

  -- When `osd_init` returns 0, both encoders have the same region. It lies inside the H264 picture, in
  -- the configured corner: it starts at multiples of 16, and stands off each of the corner's sides by the
  -- margin, up to 15 pixels more at the left and the top, and up to 15 less at the right and the bottom.
  -- The margin is at least 15 pixels, and the picture has fewer than 2 ^ 31 on a side and holds the text with
  -- its margin and 15 pixels more.
  pub osd_init-InCorner :
      (a : Answers) (b : Board) (text font m : ℕ)
      → a.text_width ≡ pos text
      → cfg.osd.font_size ≡ pos font
      → cfg.osd.margin ≡ pos m
      → 15 ≤ m
      → cfg.h264.width < 2 ^ 31
      → cfg.h264.height < 2 ^ 31
      → m + 15 + at16 text ≤ cfg.h264.width
      → m + 15 + at16 font ≤ cfg.h264.height
      → (osd_init cfg a b).0 ≡ ok
      → (r : Region) × ((osd_init cfg a b).1.region_h264 ≡ some r)
        × ((osd_init cfg a b).1.region_mjpeg ≡ some r)
        × InCorner cfg.osd.position cfg.h264.width cfg.h264.height
            (at16 text)
            (at16 font)
            m
            (r.x, r.y)
  unfolding up_align_to_16
  osd_init-InCorner a b text font m e f g k s t i j h =
      let o = osd_init_ok a b h in
      let in_corner = place-InCorner cfg.osd.position (at16 text) (at16 font) m g k s t i j in
      (
        region (up_align_to_16 a.text_width) (up_align_to_16 cfg.osd.font_size),
        o.0,
        o.1,
        subst
            (λ at.
              InCorner cfg.osd.position cfg.h264.width cfg.h264.height (at16 text) (at16 font) m at)
            (ap₂
              (λ (v : ℤ) (u : ℤ). place cfg cfg.osd.position (up_align_to_16 v) (up_align_to_16 u))
              (sym e) (sym f))
            in_corner,
      )
