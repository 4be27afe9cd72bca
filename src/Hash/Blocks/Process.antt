-- ===== src/Hash/Blocks/Process.antt =====
-- src/hash.cpp: the loops of `sha1` and `sha256` over full blocks and tail fold the blocks of the
-- padded message, for a compression that reads no more than the 64 bytes of its block.
use mathlib.Core.List.{foldl, foldl-append}
use mhda.Base.{
  ℕ, zero, suc, ◌+◌, ◌-◌, ◌*◌, ◌/◌, ◌%◌, ◌≤◌, ◌≡◌, refl, sym, ap, ◌∙◌, arith, ◌∷◌, ◌++◌,
  append_assoc, append-nil, Bytes, length, take, drop, replicate, length-append, length-drop,
  drop-drop, take-append_le, drop-append_le, inl, inr,
}
use mhda.Hash.Blocks.{absorb, full_blocks, tail_blocks, tail_block, pad_len}
use mhda.Hash.Blocks.Padding.{tail_block-padding, length-padding, pad_len-cases}
use mhda.Hash.Standard.{padding, padded, blocks, message_blocks, process}

blocks_add : (a b : ℕ) (m : Bytes) → blocks (a + b) m ≡ blocks a m ++ blocks b (drop (a * 64) m)
unfolding blocks
blocks_add zero b m = let e : 0 + b ≡ b = omega arith in rw e refl
blocks_add (suc a) b m =
    let e : suc a + b ≡ suc (a + b) = omega arith in
    let d : 64 + a * 64 ≡ suc a * 64 = omega arith in
    ap (λ t. blocks t m) e
    ∙ ap (λ t. take 64 m ∷ t)
        (blocks_add a b (drop 64 m)
          ∙ ap (λ t. blocks a (drop 64 m) ++ blocks b t)
              (drop-drop (a * 64) 64 m ∙ ap (λ t. drop t m) d))

-- What follows the blocks that are taken does not matter.
blocks-append : (a : ℕ) (m x : Bytes) → a * 64 ≤ length m → blocks a (m ++ x) ≡ blocks a m
unfolding blocks
blocks-append zero m x h = refl
blocks-append (suc a) m x h =
    let small : 64 ≤ length m = omega arith in
    let rest : a * 64 ≤ length (drop 64 m) = omega (arith, length-drop 64 m) in
    rw
      (take-append_le 64 m x small, drop-append_le 64 m x small, blocks-append a (drop 64 m) x rest)
      refl

-- The full blocks of a message, and those of its padded end.
message_blocks-split :
    (m : Bytes)
    → message_blocks m
      ≡ blocks (length m / 64) m
        ++ blocks (pad_len (length m % 64) / 64) (drop (length m / 64 * 64) m ++ padding (length m))
unfolding message_blocks padded
message_blocks-split m =
    let n = length m in
    let full = n / 64 in
    let count = pad_len (n % 64) / 64 in
    let size : length (m ++ padding n) / 64 ≡ full + count =
      ground (arith, length-append m (padding n), length-padding n, pad_len-cases (n % 64)) in
    let below : full * 64 ≤ n = omega arith in
    ap (λ t. blocks t (m ++ padding n)) size ∙ blocks_add full count (m ++ padding n) ∙ λ i.
    blocks-append full m (padding n) below i
    ++ blocks count (drop-append_le (full * 64) m (padding n) below i)

module _ {ℓ} {S : Type ℓ} (compress : S → Bytes → S)
    (reads_64 : (s : S) (b : Bytes) → compress s (take 64 b) ≡ compress s b) where
  full_blocks-foldl :
      (left i : ℕ) (m : Bytes) (s : S)
      → full_blocks compress left i m s ≡ foldl compress s (blocks left (drop (i * 64) m))
  unfolding full_blocks blocks
  full_blocks-foldl zero i m s = refl
  full_blocks-foldl (suc left) i m s =
      let d : i * 64 + 64 ≡ (i + 1) * 64 = omega arith in
      full_blocks-foldl left (i + 1) m (compress s (drop (i * 64) m))
      ∙ ap (λ t. foldl compress t (blocks left (drop ((i + 1) * 64) m)))
          (sym (reads_64 s (drop (i * 64) m)))
      ∙ ap (λ t. foldl compress (compress s (take 64 (drop (i * 64) m))) (blocks left t))
          (ap (λ t. drop t m) (sym d) ∙ sym (drop-drop 64 (i * 64) m))

  -- The one or two blocks of the tail, of which the padded end `p` is the front.
  tail_blocks-foldl :
      (r : ℕ) (p : Bytes) (s : S)
      → length p ≡ pad_len r
      → tail_blocks compress r (p ++ replicate (128 - pad_len r) 0) s
        ≡ foldl compress s (blocks (pad_len r / 64) p)
  unfolding tail_blocks blocks
  tail_blocks-foldl r p s h = elim (pad_len-cases r) [
    | inl e ↦
        let zeros : Bytes = replicate (128 - 64) 0 in
        let long : 64 ≤ length p = omega arith in
        rw e (sym (reads_64 s (p ++ zeros)) ∙ ap (compress s) (take-append_le 64 p zeros long))
    | inr e ↦
        rw (e, append-nil p)
          (sym (reads_64 (compress s p) (drop 64 p))
            ∙ ap (λ t. compress t (take 64 (drop 64 p))) (sym (reads_64 s p)))
  ]

  pub absorb-process : (s : S) (m : Bytes) → absorb compress s m ≡ process compress s m
  unfolding absorb message_blocks padded
  absorb-process s m =
      let n = length m in
      let full = n / 64 in
      let rest = drop (full * 64) m in
      let rem : n - full * 64 ≡ n % 64 = omega arith in
      let size : length rest ≡ n % 64 = omega (arith, length-drop (full * 64) m) in
      let after = full_blocks compress full 0 m s in
      let count = pad_len (n % 64) / 64 in
      let end = rest ++ padding n in
      ap (λ t. tail_blocks compress t (tail_block n t rest) after) rem
      ∙ ap (λ t. tail_blocks compress (n % 64) t after)
          (tail_block-padding n rest size
            ∙ sym (append_assoc rest (padding n) (replicate (128 - pad_len (n % 64)) 0)))
      ∙ tail_blocks-foldl (n % 64) end after
          (omega (arith, length-append rest (padding n), length-padding n))
      ∙ ap (λ t. foldl compress t (blocks count end)) (full_blocks-foldl full 0 m s)
      ∙ sym (foldl-append compress s (blocks full m) (blocks count end))
      ∙ ap (foldl compress s) (sym (message_blocks-split m))
