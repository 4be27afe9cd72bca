-- ===== src/Hash/Message.antt =====
-- src/hash.cpp: the message that `sha1` and `sha256` work on, cut into blocks of 64 bytes.
use mathlib.Core.List.{foldl, flatten}
use mhda.Base.{
  IsByte, ℕ, zero, suc, ◌-◌, ◌*◌, ◌/◌, ◌%◌, ◌≤◌, ◌≡◌, refl, ap, ◌∙◌, arith, List, [], ◌∷◌, ◌++◌,
  Bytes, length, take, drop, All, All-append, All-take, All-drop, All-replicate, replicate,
  length-drop, length-append, length-take, take-append-drop,
}
use mhda.Hash.Blocks.{absorb}
use mhda.Hash.Blocks.Padding.{length-padding, pad_len-cases}
use mhda.Hash.Blocks.Process.{absorb-process}
use mhda.Hash.Schedule.{IsBlock}
use mhda.Hash.Standard.{big_endian, padding, padded, message_blocks, blocks}
use mhda.Hash.Word.{store_word}

big_endian-All : (k v : ℕ) → All IsByte (big_endian k v)
unfolding big_endian
big_endian-All zero v = tt
big_endian-All (suc k) v =
    All-append IsByte (big_endian k (v / 256)) ((v % 256) ∷ []) (big_endian-All k (v / 256))
      (omega arith, tt)

padded-All : (m : Bytes) → All IsByte m → All IsByte (padded m)
unfolding padded padding
padded-All m h =
    let n = length m in
    let zeros = (119 - n % 64) % 64 in
    All-append IsByte m (padding n) h (
      omega arith,
      All-append IsByte (replicate zeros 0) (big_endian 8 (n * 8))
          (All-replicate IsByte zeros 0 (omega arith)) (big_endian-All 8 (n * 8)),
    )

blocks-All : (k : ℕ) (m : Bytes) → k * 64 ≤ length m → All IsByte m → All IsBlock (blocks k m)
unfolding blocks
blocks-All zero m e h = tt
blocks-All (suc k) m e h = (
  (length-take 64 m (omega arith), All-take IsByte 64 m h),
  blocks-All k (drop 64 m) (omega (arith, length-drop 64 m)) (All-drop IsByte 64 m h),
)

pub message_blocks-IsBlock : (m : Bytes) → All IsByte m → All IsBlock (message_blocks m)
unfolding message_blocks
message_blocks-IsBlock m h =
    blocks-All (length (padded m) / 64) (padded m) (omega arith) (padded-All m h)

flatten-blocks : (k : ℕ) (m : Bytes) → length m ≡ k * 64 → flatten (blocks k m) ≡ m
unfolding blocks flatten
flatten-blocks zero [] e = refl
flatten-blocks zero (x ∷ m) e = absurd (omega arith)
flatten-blocks (suc k) m e =
    ap (λ t. take 64 m ++ t) (flatten-blocks k (drop 64 m) (omega (arith, length-drop 64 m)))
    ∙ take-append-drop 64 m

flatten-message_blocks : (m : Bytes) → flatten (message_blocks m) ≡ m ++ padding (length m)
unfolding message_blocks padded
flatten-message_blocks m = flatten-blocks (length (padded m) / 64) (padded m) (
    ground (
      arith,
      length-append m (padding (length m)),
      length-padding (length m),
      pad_len-cases (length m % 64),
    ))

-- Two compressions that agree on blocks and keep an invariant fold to the same.
pub foldl_agree {ℓ κ} :
    {S : Type ℓ} (P : S → Type κ) (f g : S → Bytes → S)
    → ((s : S) (b : Bytes) → P s → IsBlock b → (f s b ≡ g s b) × P (f s b))
    → (s : S) (bs : List Bytes) → P s
    → All IsBlock bs
    → (foldl f s bs ≡ foldl g s bs) × P (foldl f s bs)
foldl_agree P f g step s [] p _ = (refl, p)
foldl_agree P f g step s (b ∷ bs) p (hb, hs) =
    let one = step s b p hb in
    let rest = foldl_agree P f g step (f s b) bs one.1 hs in
    (rest.0 ∙ ap (λ t. foldl g t bs) one.0, rest.1)

pub store_word-big_endian : (x : ℕ) → store_word x ≡ big_endian 4 x
unfolding store_word big_endian
store_word-big_endian x = ground arith

-- For a compression that reads the 64 bytes of its block only, the state after all blocks is the
-- fold over blocks of 64 bytes, which join to the message and its padding.
pub absorb-padded {ℓ} :
    {S : Type ℓ} (compress : S → Bytes → S)
    → ((s : S) (b : Bytes) → compress s (take 64 b) ≡ compress s b)
    → (s : S) (m : Bytes) → All IsByte m
    → (bs : List Bytes) × (absorb compress s m ≡ foldl compress s bs)
      × All IsBlock bs
      × (flatten bs ≡ m ++ padding (length m))
absorb-padded compress reads_64 s m h = (
  message_blocks m,
  absorb-process compress reads_64 s m,
  message_blocks-IsBlock m h,
  flatten-message_blocks m,
)
