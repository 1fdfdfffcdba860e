-- ===== src/Tags/Bands.antt =====
-- The bands of the tags' values (1000 danger, 2000 warning, 3000 informational, 4000 secondary)
-- against the colours that the site shows.
use miningpool_observer.Prelude.{
  ℕ, ◌+◌, ◌*◌, ◌≡◌, refl, ℤ, pos, negsuc, leb, ltb, Bool, ◌&&◌, true, false,
}
use miningpool_observer.Tags.{TxTag, discriminant, Color, colors}

abbrev pub in_band : ℕ → ℤ → Bool
in_band k (pos n) = leb (k * 1000) n && ltb n (k * 1000 + 1000)
in_band k (negsuc n) = false

-- The band that a colour belongs to.
abbrev pub band_of : Color → ℕ
band_of Color.red = 1
band_of Color.yellow = 2
band_of Color.cyan = 3
band_of _ = 4

-- The value of every tag lies in the band of the colour that the tag is shown in: red in the
-- thousands of danger, yellow of warning, cyan of information, grey of secondary.
discriminant-in_band : (t : TxTag) → in_band (band_of (colors t).0) (discriminant t) ≡ true
unfolding discriminant colors
discriminant-in_band TxTag.from_sanctioned = refl
discriminant-in_band _ = refl
