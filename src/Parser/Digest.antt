-- ===== src/Parser/Digest.antt =====
-- The four hashes of src/address.cpp, over what an address prints.
use mhda.Address.Digest.{hash, nss_hash, hash256, nss_hash256}
use mhda.Address.Print.{nss, str}
use mhda.Address.Valid.{IsValid}
use mhda.Address.{Address}
use mhda.Base.{IsByte, ◌≡◌, ◌∙◌, arith, Bytes, All, All-imp}
use mhda.Detail.Ascii.Sets.{IsGraphic}
use mhda.Hash.Hex.Digits.{of_hex, IsHexText, hex_digests}
use mhda.Hash.Sha1.Refines.{sha1-digest}
use mhda.Hash.Sha1.Standard as Sha1
use mhda.Hash.Sha256.Refines.{sha256-digest}
use mhda.Hash.Sha256.Standard as Sha256
use mhda.Parser.RoundTrip.{str-IsGraphic, nss-IsGraphic}

graphic_bytes : (s : Bytes) → All IsGraphic s → All IsByte s
graphic_bytes s h = All-imp IsGraphic IsByte (λ c g. omega arith) s h

-- The four hashes of a well-formed address are texts of 40 or 64 lower-case hexadecimal digits,
-- and these spell the standard's SHA-1 and SHA-256 of the URN and of the NSS.
pub hashes_lem :
    (a : Address)
    → IsValid a
    → (IsHexText 40 (hash a) × (of_hex (hash a) ≡ Sha1.digest (str a)))
      × (IsHexText 40 (nss_hash a) × (of_hex (nss_hash a) ≡ Sha1.digest (nss a)))
      × (IsHexText 64 (hash256 a) × (of_hex (hash256 a) ≡ Sha256.digest (str a)))
      × (IsHexText 64 (nss_hash256 a) × (of_hex (nss_hash256 a) ≡ Sha256.digest (nss a)))
unfolding hash nss_hash hash256 nss_hash256
hashes_lem a v =
    let urn = hex_digests (str a) in
    let name = hex_digests (nss a) in
    let urn_bytes = graphic_bytes (str a) (str-IsGraphic a v) in
    let name_bytes = graphic_bytes (nss a) (nss-IsGraphic a v) in
    (
      (urn.0, urn.2 ∙ sha1-digest (str a) urn_bytes),
      (name.0, name.2 ∙ sha1-digest (nss a) name_bytes),
      (urn.1, urn.3 ∙ sha256-digest (str a) urn_bytes),
      (name.1, name.3 ∙ sha256-digest (nss a) name_bytes),
    )
