-- ===== src/Tests/Texts.antt =====
-- The theorems on texts and numbers at concrete inputs.
use mathlib.Core.List.{cons-ne-nil}
use mhda.Base.{ℕ, ◌<◌, ◌^◌, ◌≡◌, ◌≢◌, ◌↔◌, refl, [], ◌∷◌, some, codes, All, inr}
use mhda.Detail.Ascii.Sets.{nss_byte_lem}
use mhda.Detail.Number.Value.{IsDigit, spelled, parse_in_base_iff, parse_uint31_dec_iff}
use mhda.Detail.Number.{parse_in_base, parse_uint31_dec}
use mhda.Error.{ok}
use mhda.Nss.Filled.{nodup, nodup-Distinct}
use mhda.Nss.Pairs.{spell, parse_nss_map-spell}
use mhda.Nss.Sound.{IsWellFormed, parse_nss_map-IsWellFormed}
use mhda.Nss.{Components, parse_nss_map}
use mhda.Tests.Everything.{everything}

abbrev two : Components
two = (codes "ci", codes "1") ∷ (codes "nt", codes "ton") ∷ []

parse_nss_map-spell_example : parse_nss_map (spell two) ≡ ok two
unfolding everything nodup
parse_nss_map-spell_example =
    parse_nss_map-spell two
      (
        (refl, cons-ne-nil _ _, (refl, tt)),
        ((refl, cons-ne-nil _ _, (refl, (refl, (refl, tt)))), tt),
      )
      (nodup-Distinct two refl)

parse_nss_map-IsWellFormed_example : IsWellFormed two
unfolding everything
parse_nss_map-IsWellFormed_example =
    parse_nss_map-IsWellFormed (codes "ci:1:zz:9:nt:ton") {m = two} refl

parse_in_base_iff_example : (parse_in_base (codes "fF") 16 ≡ some 255) ↔ (
    (codes "fF" ≢ [])
    × All (IsDigit 16) (codes "fF")
    × (255 ≡ spelled 16 0 (codes "fF"))
    × (255 < 2 ^ 64))
parse_in_base_iff_example = parse_in_base_iff (codes "fF") 16 255 (inr refl)

parse_uint31_dec_iff_example : (parse_uint31_dec (codes "060") ≡ some 60) ↔ (
    (codes "060" ≢ [])
    × All (IsDigit 10) (codes "060")
    × (60 ≡ spelled 10 0 (codes "060"))
    × (60 < 2 ^ 31))
parse_uint31_dec_iff_example = parse_uint31_dec_iff (codes "060") 60

abbrev slash : ℕ
slash = b'/'

nss_byte_lem_example :
    (0x20 < slash)
    × (slash < 0x7f)
    × (slash ≢ b':')
    × (slash ≢ b'%')
    × (slash ≢ b'?')
    × (slash ≢ b'#')
unfolding everything
nss_byte_lem_example = nss_byte_lem slash refl
