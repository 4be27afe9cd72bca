-- ===== src/Hash/Sha256/Refines.antt =====
-- src/hash.cpp: `sha256` computes the SHA-256 of the standard.
use mhda.Base.{
  IsByte, ℕ, zero, suc, ◌+◌, ◌%◌, ◌^◌, ◌≤◌, ◌≡◌, refl, sym, ap, ◌∙◌, arith, List, [], ◌∷◌, ◌++◌,
  Bytes, length, take, get_or, All, All-append,
}
use mhda.Hash.Schedule.{
  words-All, load_words-words, load_words-take, back-IsWord, IsBlock, length-words, length-snoc,
}
use mhda.Hash.Blocks.Process.{absorb-process}
use mhda.Hash.Message.{message_blocks-IsBlock, foldl_agree, store_word-big_endian}
use mhda.Hash.Sha256.{
  Sha256State, sha256_word, sha256_extend, sha256_schedule, small_s0, small_s1, big_s0, big_s1,
  choice, majority, sha256_t1, sha256_t2, k256, sha256_round, sha256_rounds, sha256_compress,
  add_states, sha256_initial, sha256_output, sha256,
}
use mhda.Hash.Sha256.Standard
use mhda.Hash.Standard.{words, expand, back, rotate_right, message_blocks, process}
use mhda.Hash.Word.Values.{IsWord, rotr32-value}
use mhda.Hash.Word.{rotr32, u32}

abbrev pub IsState : Sha256State → Type 0
IsState s =
    IsWord s.a
    × IsWord s.b
    × IsWord s.c
    × IsWord s.d
    × IsWord s.e
    × IsWord s.f
    × IsWord s.g
    × IsWord s.h

-- Every word that is rotated here is one of 32 bits.
module _ (x : ℕ) (h : IsWord x) where
  right : (n : ℕ) → n ≤ 32 → rotr32 x n ≡ rotate_right x n
  unfolding rotate_right
  right n e = rotr32-value n x e h

  small_s0-sigma_0 : small_s0 x ≡ Standard.sigma_0 x
  unfolding small_s0 Standard.sigma_0
  small_s0-sigma_0 = rw (right 7 (omega arith), right 18 (omega arith)) refl

  small_s1-sigma_1 : small_s1 x ≡ Standard.sigma_1 x
  unfolding small_s1 Standard.sigma_1
  small_s1-sigma_1 = rw (right 17 (omega arith), right 19 (omega arith)) refl

  big_s0-sum_0 : big_s0 x ≡ Standard.sum_0 x
  unfolding big_s0 Standard.sum_0
  big_s0-sum_0 = rw (right 2 (omega arith), right 13 (omega arith), right 22 (omega arith)) refl

  big_s1-sum_1 : big_s1 x ≡ Standard.sum_1 x
  unfolding big_s1 Standard.sum_1
  big_s1-sum_1 = rw (right 6 (omega arith), right 11 (omega arith), right 25 (omega arith)) refl

sum_of_four : (p q r x : ℕ) → u32 (u32 (u32 (p + q) + r) + x) ≡ (x + r + q + p) % 2 ^ 32
sum_of_four p q r x = omega arith

sha256_word-next_word :
    (w : List ℕ)
    → All IsWord w
    → (sha256_word w (length w) ≡ Standard.next_word w) × IsWord (sha256_word w (length w))
unfolding sha256_word Standard.next_word
sha256_word-next_word w h = (
  rw
      (
        small_s0-sigma_0 (back w 15) (back-IsWord w 15 h),
        small_s1-sigma_1 (back w 2) (back-IsWord w 2 h),
      )
      (sum_of_four (back w 16) (Standard.sigma_0 (back w 15)) (back w 7)
        (Standard.sigma_1 (back w 2))),
  omega arith,
)

sha256_extend-expand :
    (left i : ℕ) (w : List ℕ)
    → length w ≡ i
    → All IsWord w
    → (sha256_extend left i w ≡ expand Standard.next_word left w)
      × All IsWord (sha256_extend left i w)
unfolding sha256_extend expand
sha256_extend-expand zero i w e h = (refl, h)
sha256_extend-expand (suc left) i w e h =
    let x = sha256_word w i in
    let at : sha256_word w i ≡ sha256_word w (length w) = ap (sha256_word w) (sym e) in
    let here = sha256_word-next_word w h in
    let word : IsWord x = rw at here.1 in
    let rest =
      sha256_extend-expand left (i + 1) (w ++ (x ∷ [])) (length-snoc w x i e)
        (All-append IsWord w (x ∷ []) h (word, tt)) in
    (rest.0 ∙ ap (λ t. expand Standard.next_word left (w ++ (t ∷ []))) (at ∙ here.0), rest.1)

-- What the wrap-around of the sums of a round leaves.
sums_of_round :
    (h s1 c k x s0 m d : ℕ)
    → let t = u32 (u32 (u32 (u32 (h + s1) + c) + k) + x) in
      (u32 (t + u32 (s0 + m)) ≡ (h + s1 + c + k + x + (s0 + m)) % 2 ^ 32)
      × (u32 (d + t) ≡ (d + (h + s1 + c + k + x)) % 2 ^ 32)
sums_of_round h s1 c k x s0 m d = (omega arith, omega arith)

sha256_round-round :
    (i x : ℕ) (s : Sha256State)
    → IsState s
    → (sha256_round i x s ≡ Standard.round i x s) × IsState (sha256_round i x s)
unfolding sha256_round Standard.round sha256_t1 sha256_t2 Standard.t1 Standard.t2 choice Standard.ch
    majority Standard.maj
sha256_round-round i x s (ha, hb, hc, hd, he, hf, hg, hh) =
    let sums =
      sums_of_round s.h (Standard.sum_1 s.e) (choice s.e s.f s.g) (get_or k256 i 0) x
        (Standard.sum_0 s.a) (majority s.a s.b s.c) s.d in
    (
      rw (big_s1-sum_1 s.e he, big_s0-sum_0 s.a ha, sums.0, sums.1) refl,
      (omega arith, ha, hb, hc, omega arith, he, hf, hg),
    )

sha256_rounds-rounds :
    (i : ℕ) (w : List ℕ) (s : Sha256State)
    → IsState s
    → (sha256_rounds i w s ≡ Standard.rounds i w s) × IsState (sha256_rounds i w s)
unfolding sha256_rounds Standard.rounds
sha256_rounds-rounds i [] s h = (refl, h)
sha256_rounds-rounds i (x ∷ w) s h =
    let one = sha256_round-round i x s h in
    let rest = sha256_rounds-rounds (i + 1) w (sha256_round i x s) one.1 in
    (rest.0 ∙ ap (Standard.rounds (i + 1) w) one.0, rest.1)

sha256_compress-IsState : (s : Sha256State) (block : Bytes) → IsState (sha256_compress s block)
unfolding sha256_compress
sha256_compress-IsState s block = (
  omega arith,
  omega arith,
  omega arith,
  omega arith,
  omega arith,
  omega arith,
  omega arith,
  omega arith,
)

sha256_compress-compress :
    (s : Sha256State) (block : Bytes)
    → IsState s
    → IsBlock block
    → sha256_compress s block ≡ Standard.compress s block
unfolding sha256_compress Standard.compress sha256_schedule
sha256_compress-compress s block h (e, hb) =
    let loaded = load_words-words 16 0 block e hb in
    let size : length (words block) ≡ 16 = length-words 16 block e in
    let schedule = sha256_extend-expand 48 16 (words block) size (words-All block hb) in
    ap (λ t. add_states s (sha256_rounds 0 t s)) (ap (sha256_extend 48 16) loaded ∙ schedule.0)
    ∙ ap (add_states s) (sha256_rounds-rounds 0 (expand Standard.next_word 48 (words block)) s h).0

sha256_compress-take :
    (s : Sha256State) (block : Bytes) → sha256_compress s (take 64 block) ≡ sha256_compress s block
unfolding sha256_compress sha256_schedule
sha256_compress-take s block =
    ap (λ t. add_states s (sha256_rounds 0 (sha256_extend 48 16 t) s))
      (load_words-take 16 0 block (omega arith))

sha256_output-output : (s : Sha256State) → sha256_output s ≡ Standard.output s
unfolding sha256_output Standard.output
sha256_output-output s =
    rw
      (
        store_word-big_endian s.a,
        store_word-big_endian s.b,
        store_word-big_endian s.c,
        store_word-big_endian s.d,
        store_word-big_endian s.e,
        store_word-big_endian s.f,
        store_word-big_endian s.g,
        store_word-big_endian s.h,
      )
      refl

sha256_compress-step :
    (s : Sha256State) (b : Bytes)
    → IsState s
    → IsBlock b
    → (sha256_compress s b ≡ Standard.compress s b) × IsState (sha256_compress s b)
sha256_compress-step s b h k = (sha256_compress-compress s b h k, sha256_compress-IsState s b)

-- The digest that `sha256` computes of a message of bytes is the standard's, whose round constants
-- are `k256`.
pub sha256-digest : (m : Bytes) → All IsByte m → sha256 m ≡ Standard.digest m
unfolding sha256 Standard.digest
sha256-digest m h =
    let blocks = message_blocks-IsBlock m h in
    let start : IsState sha256_initial = (
      omega arith,
      omega arith,
      omega arith,
      omega arith,
      omega arith,
      omega arith,
      omega arith,
      omega arith,
    ) in
    let states =
      foldl_agree IsState sha256_compress Standard.compress sha256_compress-step sha256_initial
        (message_blocks m) start blocks in
    ap sha256_output
      (absorb-process sha256_compress sha256_compress-take sha256_initial m ∙ states.0)
    ∙ sha256_output-output (process Standard.compress Standard.initial m)
