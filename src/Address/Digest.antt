-- ===== src/Address/Digest.antt =====
-- The hashes of an address, in src/address.cpp.
use mhda.Address.Print.{nss, str}
use mhda.Address.{Address}
use mhda.Base.{Bytes}
use mhda.Hash.Hex.{sha1_hex, sha256_hex}

unfoldable pub hash : Address → Bytes
hash a = sha1_hex (str a)

unfoldable pub nss_hash : Address → Bytes
nss_hash a = sha1_hex (nss a)

unfoldable pub hash256 : Address → Bytes
hash256 a = sha256_hex (str a)

unfoldable pub nss_hash256 : Address → Bytes
nss_hash256 a = sha256_hex (nss a)
