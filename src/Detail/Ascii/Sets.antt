-- ===== src/Detail/Ascii/Sets.antt =====
-- src/detail.hpp: the byte sets, and texts that are their own lower-case form.
use mhda.Base.{ℕ, ◌≡◌, ◌≢◌, refl, true, [], ◌∷◌, Bytes, ◌⊎◌, ◌<◌, All, All-imp, arith}
use mhda.Detail.Ascii.{
  is_ascii_space, ascii_lower, to_lower, normalize, nss_byte, all_nss_bytes, trim, strip_rqf,
}
use mhda.Detail.Ascii.Split.{Lacks}
use mhda.Detail.Ascii.Trim.{IsSolid, trim_self}

abbrev pub IsNssByte : ℕ → Type 0
IsNssByte c = nss_byte c ≡ true

-- An NSS byte is printable, and none of the bytes that have a meaning of their own in a URN.
pub nss_byte_lem :
    (c : ℕ)
    → IsNssByte c
    → (0x20 < c) × (c < 0x7f) × (c ≢ b':') × (c ≢ b'%') × (c ≢ b'?') × (c ≢ b'#')
unfolding nss_byte
nss_byte_lem c h = ground arith

pub all_nss_bytes-All : (s : Bytes) → all_nss_bytes s ≡ true → All IsNssByte s
unfolding all_nss_bytes
all_nss_bytes-All [] h = tt
all_nss_bytes-All (c ∷ s) h = (ground arith, all_nss_bytes-All s (ground arith))

pub All-all_nss_bytes : (s : Bytes) → All IsNssByte s → all_nss_bytes s ≡ true
unfolding all_nss_bytes
All-all_nss_bytes [] h = refl
All-all_nss_bytes (c ∷ s) (h, hs) = rw (h, All-all_nss_bytes s hs)

-- printable ASCII, no space among it
abbrev pub IsGraphic : ℕ → Type 0
IsGraphic c = (0x20 < c) × (c < 0x7f)

pub IsGraphic-IsSolid : (c : ℕ) → IsGraphic c → IsSolid c
unfolding is_ascii_space
IsGraphic-IsSolid c h = ground arith

pub trim_graphic : (s : Bytes) → All IsGraphic s → trim s ≡ s
trim_graphic s h = trim_self s (All-imp IsGraphic IsSolid IsGraphic-IsSolid s h)

pub nss-IsGraphic : (c : ℕ) → IsNssByte c → IsGraphic c
nss-IsGraphic c h = ((nss_byte_lem c h).0, (nss_byte_lem c h).1)

pub trim_nss : (s : Bytes) → All IsNssByte s → trim s ≡ s
trim_nss s h = trim_graphic s (All-imp IsNssByte IsGraphic nss-IsGraphic s h)

-- an NSS byte that is no upper-case letter
abbrev pub IsLowerNss : ℕ → Type 0
IsLowerNss c = IsNssByte c × ((c < b'A') ⊎ (b'Z' < c))

pub to_lower_self : (s : Bytes) → All IsLowerNss s → to_lower s ≡ s
unfolding to_lower ascii_lower
to_lower_self [] h = refl
to_lower_self (c ∷ s) ((_, h), hs) = ground (arith, to_lower_self s hs)

pub normalize_self : (s : Bytes) → All IsLowerNss s → normalize s ≡ s
unfolding normalize
normalize_self s h =
    rw (trim_nss s (All-imp IsLowerNss IsNssByte (λ c p. p.0) s h)) (to_lower_self s h)

pub strip_rqf_self : (s : Bytes) → Lacks b'?' s → Lacks b'#' s → strip_rqf s ≡ s
unfolding strip_rqf
strip_rqf_self [] q f = refl
strip_rqf_self (c ∷ s) (q, qs) (f, fs) = ground (arith, strip_rqf_self s qs fs)
