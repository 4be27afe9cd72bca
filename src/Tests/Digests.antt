-- ===== src/Tests/Digests.antt =====
-- Runs of the hashes of src/hash.cpp at known inputs, and the theorems on them at concrete inputs.
use mathlib.Core.List.{foldl, flatten}
use mhda.Address.Digest.{hash, nss_hash, hash256, nss_hash256}
use mhda.Address.Print.{nss, str}
use mhda.Base.{IsByte, ℕ, ◌≡◌, refl, arith, List, ◌++◌, Bytes, codes, get_or, All, length}
use mhda.Hash
use mhda.Hash.Blocks.{absorb}
use mhda.Hash.Hex.Digits.{of_hex, IsHexText}
use mhda.Hash.Hex.{sha1_hex, sha256_hex}
use mhda.Hash.Message.{absorb-padded}
use mhda.Hash.Schedule.{IsBlock}
use mhda.Hash.Sha1.Refines.{sha1-digest, sha1_compress-take}
use mhda.Hash.Sha1.Standard as Sha1
use mhda.Hash.Sha1.{sha1, sha1_compress, sha1_initial}
use mhda.Hash.Sha256.Constants.{primes_below, IsCubeRoot, k256-IsCubeRoot}
use mhda.Hash.Sha256.Refines.{sha256-digest}
use mhda.Hash.Sha256.Standard as Sha256
use mhda.Hash.Sha256.{sha256, k256}
use mhda.Hash.Standard.{padding}
use mhda.Parser.Digest.{hashes_lem}
use mhda.Tests.Addresses.{sample-IsValid}
use mhda.Tests.Samples.{sample}

unfoldable hash_runs : Unit {0}
unfolding mhda.Hash.Word.rotl32 mhda.Hash.Word.rotr32 mhda.Hash.Word.load_word
    mhda.Hash.Word.load_words mhda.Hash.Word.store_word mhda.Hash.Blocks.bit_len
    mhda.Hash.Blocks.pad_len mhda.Hash.Blocks.write_length mhda.Hash.Blocks.tail_block
    mhda.Hash.Blocks.full_blocks mhda.Hash.Blocks.tail_blocks mhda.Hash.Blocks.absorb
    mhda.Hash.Sha1.sha1_word mhda.Hash.Sha1.sha1_extend mhda.Hash.Sha1.sha1_schedule
    mhda.Hash.Sha1.sha1_f mhda.Hash.Sha1.sha1_k mhda.Hash.Sha1.sha1_round mhda.Hash.Sha1.sha1_rounds
    mhda.Hash.Sha1.sha1_compress mhda.Hash.Sha1.sha1_output mhda.Hash.Sha1.sha1
    mhda.Hash.Sha256.k256 mhda.Hash.Sha256.small_s0 mhda.Hash.Sha256.small_s1
    mhda.Hash.Sha256.sha256_word mhda.Hash.Sha256.sha256_extend mhda.Hash.Sha256.sha256_schedule
    mhda.Hash.Sha256.big_s1 mhda.Hash.Sha256.choice mhda.Hash.Sha256.big_s0
    mhda.Hash.Sha256.majority mhda.Hash.Sha256.sha256_t1 mhda.Hash.Sha256.sha256_t2
    mhda.Hash.Sha256.sha256_round mhda.Hash.Sha256.sha256_rounds mhda.Hash.Sha256.sha256_compress
    mhda.Hash.Sha256.sha256_output mhda.Hash.Sha256.sha256 mhda.Hash.Hex.hex_digit
    mhda.Hash.Hex.to_hex mhda.Hash.Hex.sha1_hex mhda.Hash.Hex.sha256_hex
hash_runs = tt

sha1_hex_abc : sha1_hex (codes "abc") ≡ codes "a9993e364706816aba3e25717850c26c9cd0d89d"
unfolding hash_runs
sha1_hex_abc = refl

sha256_hex_abc :
    sha256_hex (codes "abc")
    ≡ codes "ba7816bf8f01cfea414140de5dae2223b00361a396177a9cb410ff61f20015ad"
unfolding hash_runs
sha256_hex_abc = refl

-- 56 bytes, whose padding takes a second block
abbrev two_blocks : Bytes
two_blocks = codes "abcdbcdecdefdefgefghfghighijhijkijkljklmklmnlmnomnopnopq"

sha1_hex_long : sha1_hex two_blocks ≡ codes "84983e441c3bd26ebaae4aa1f95129e5e54670f1"
unfolding hash_runs
sha1_hex_long = refl

sha256_hex_long :
    sha256_hex two_blocks ≡ codes "248d6a61d20638b8e5c026930c3e6039a33ce45964ff2167f6ecedd419db06c1"
unfolding hash_runs
sha256_hex_long = refl

abbrev abc : Bytes
abc = codes "abc"

abc-IsByte : All IsByte abc
abc-IsByte = (omega arith, (omega arith, (omega arith, tt)))

sha1-digest_example : sha1 abc ≡ Sha1.digest abc
sha1-digest_example = sha1-digest abc abc-IsByte

sha256-digest_example : sha256 abc ≡ Sha256.digest abc
sha256-digest_example = sha256-digest abc abc-IsByte

absorb-padded_example :
    (bs : List Bytes) × (absorb sha1_compress sha1_initial abc
      ≡ foldl sha1_compress sha1_initial bs)
    × All IsBlock bs
    × (flatten bs ≡ abc ++ padding (length abc))
absorb-padded_example = absorb-padded sha1_compress sha1_compress-take sha1_initial abc abc-IsByte

k256-IsCubeRoot_example :
    (whole : ℕ) × IsCubeRoot (get_or (primes_below 312) 63 0) whole (get_or k256 63 0)
k256-IsCubeRoot_example = k256-IsCubeRoot 63 (omega arith)

hashes_lem_example :
    (IsHexText 40 (hash sample) × (of_hex (hash sample) ≡ Sha1.digest (str sample)))
    × (IsHexText 40 (nss_hash sample) × (of_hex (nss_hash sample) ≡ Sha1.digest (nss sample)))
    × (IsHexText 64 (hash256 sample) × (of_hex (hash256 sample) ≡ Sha256.digest (str sample)))
    × (IsHexText 64 (nss_hash256 sample)
        × (of_hex (nss_hash256 sample) ≡ Sha256.digest (nss sample)))
hashes_lem_example = hashes_lem sample sample-IsValid
