-- ===== src/Hash/Sha1/Refines.antt =====
-- src/hash.cpp: `sha1` computes the SHA-1 of the standard.
use mhda.Base.{
  IsByte, ℕ, zero, suc, ◌+◌, ◌%◌, ◌^◌, ◌≤◌, ◌≡◌, refl, sym, ap, ◌∙◌, arith, List, [], ◌∷◌, ◌++◌,
  Bytes, length, take, All, All-append,
}
use mhda.Hash.Schedule.{
  words-All, load_words-words, load_words-take, back-IsWord, IsBlock, length-words, length-snoc,
}
use mhda.Hash.Blocks.Process.{absorb-process}
use mhda.Hash.Message.{message_blocks-IsBlock, foldl_agree, store_word-big_endian}
use mhda.Hash.Sha1.{
  Sha1State, sha1_word, sha1_extend, sha1_schedule, sha1_f, sha1_k, sha1_round, sha1_rounds,
  sha1_compress, add_states, sha1_initial, sha1_output, sha1,
}
use mhda.Hash.Sha1.Standard
use mhda.Hash.Standard.{words, expand, back, rotate_left, message_blocks, process}
use mhda.Hash.Word.Bits.{xor-lt, choice-or, majority-or}
use mhda.Hash.Word.Values.{IsWord, rotl32-value, rotl32-IsWord}
use mhda.Hash.Word.{rotl32, bit_xor, u32}

abbrev pub IsState : Sha1State → Type 0
IsState s = IsWord s.a × IsWord s.b × IsWord s.c × IsWord s.d × IsWord s.e

rotl32-rotate_left : (n x : ℕ) → n ≤ 32 → IsWord x → rotl32 x n ≡ rotate_left x n
unfolding rotate_left
rotl32-rotate_left n x h w = rotl32-value n x h w

mixed-IsWord :
    (w : List ℕ)
    → All IsWord w
    → IsWord (bit_xor (bit_xor (bit_xor (back w 3) (back w 8)) (back w 14)) (back w 16))
mixed-IsWord w h =
    xor-lt 32 _ _
      (xor-lt 32 _ _ (xor-lt 32 _ _ (back-IsWord w 3 h) (back-IsWord w 8 h)) (back-IsWord w 14 h))
      (back-IsWord w 16 h)

sha1_word-next_word :
    (w : List ℕ)
    → All IsWord w
    → (sha1_word w (length w) ≡ Standard.next_word w) × IsWord (sha1_word w (length w))
unfolding sha1_word Standard.next_word
sha1_word-next_word w h =
    (rotl32-rotate_left 1 _ (omega arith) (mixed-IsWord w h), rotl32-IsWord 1 _ (mixed-IsWord w h))

sha1_extend-expand :
    (left i : ℕ) (w : List ℕ)
    → length w ≡ i
    → All IsWord w
    → (sha1_extend left i w ≡ expand Standard.next_word left w) × All IsWord (sha1_extend left i w)
unfolding sha1_extend expand
sha1_extend-expand zero i w e h = (refl, h)
sha1_extend-expand (suc left) i w e h =
    let x = sha1_word w i in
    let at : sha1_word w i ≡ sha1_word w (length w) = ap (sha1_word w) (sym e) in
    let here = sha1_word-next_word w h in
    let word : IsWord x = rw at here.1 in
    let rest =
      sha1_extend-expand left (i + 1) (w ++ (x ∷ [])) (length-snoc w x i e)
        (All-append IsWord w (x ∷ []) h (word, tt)) in
    (rest.0 ∙ ap (λ t. expand Standard.next_word left (w ++ (t ∷ []))) (at ∙ here.0), rest.1)

sha1_f-function : (i b c d : ℕ) → IsWord b → sha1_f i b c d ≡ Standard.function i b c d
unfolding sha1_f Standard.function Standard.ch Standard.maj Standard.parity
sha1_f-function i b c d h = ground (arith, choice-or 32 b c d h, majority-or 32 b c d h)

sum_of_five :
    (p q r k x : ℕ) → u32 (u32 (u32 (u32 (p + q) + r) + k) + x) ≡ (p + q + r + k + x) % 2 ^ 32
sum_of_five p q r k x = omega arith

sha1_round-round :
    (i x : ℕ) (s : Sha1State)
    → IsState s
    → (sha1_round i x s ≡ Standard.round i x s) × IsState (sha1_round i x s)
unfolding sha1_round Standard.round sha1_k Standard.constant
sha1_round-round i x s (ha, hb, hc, hd, he) = (
  rw
      (
        rotl32-rotate_left 5 s.a (omega arith) ha,
        rotl32-rotate_left 30 s.b (omega arith) hb,
        sha1_f-function i s.b s.c s.d hb,
        sum_of_five (rotate_left s.a 5) (Standard.function i s.b s.c s.d) s.e (sha1_k i) x,
      )
      refl,
  (omega arith, ha, rotl32-IsWord 30 s.b hb, hc, hd),
)

sha1_rounds-rounds :
    (i : ℕ) (w : List ℕ) (s : Sha1State)
    → IsState s
    → (sha1_rounds i w s ≡ Standard.rounds i w s) × IsState (sha1_rounds i w s)
unfolding sha1_rounds Standard.rounds
sha1_rounds-rounds i [] s h = (refl, h)
sha1_rounds-rounds i (x ∷ w) s h =
    let one = sha1_round-round i x s h in
    let rest = sha1_rounds-rounds (i + 1) w (sha1_round i x s) one.1 in
    (rest.0 ∙ ap (Standard.rounds (i + 1) w) one.0, rest.1)

sha1_compress-IsState : (s : Sha1State) (block : Bytes) → IsState (sha1_compress s block)
unfolding sha1_compress
sha1_compress-IsState s block = (omega arith, omega arith, omega arith, omega arith, omega arith)

sha1_compress-compress :
    (s : Sha1State) (block : Bytes)
    → IsState s
    → IsBlock block
    → sha1_compress s block ≡ Standard.compress s block
unfolding sha1_compress Standard.compress sha1_schedule
sha1_compress-compress s block h (e, hb) =
    let loaded = load_words-words 16 0 block e hb in
    let size : length (words block) ≡ 16 = length-words 16 block e in
    let schedule = sha1_extend-expand 64 16 (words block) size (words-All block hb) in
    ap (λ t. add_states s (sha1_rounds 0 t s)) (ap (sha1_extend 64 16) loaded ∙ schedule.0)
    ∙ ap (add_states s) (sha1_rounds-rounds 0 (expand Standard.next_word 64 (words block)) s h).0

pub sha1_compress-take :
    (s : Sha1State) (block : Bytes) → sha1_compress s (take 64 block) ≡ sha1_compress s block
unfolding sha1_compress sha1_schedule
sha1_compress-take s block =
    ap (λ t. add_states s (sha1_rounds 0 (sha1_extend 64 16 t) s))
      (load_words-take 16 0 block (omega arith))

sha1_output-output : (s : Sha1State) → sha1_output s ≡ Standard.output s
unfolding sha1_output Standard.output
sha1_output-output s =
    rw
      (
        store_word-big_endian s.a,
        store_word-big_endian s.b,
        store_word-big_endian s.c,
        store_word-big_endian s.d,
        store_word-big_endian s.e,
      )
      refl

sha1_compress-step :
    (s : Sha1State) (b : Bytes)
    → IsState s
    → IsBlock b
    → (sha1_compress s b ≡ Standard.compress s b) × IsState (sha1_compress s b)
sha1_compress-step s b h k = (sha1_compress-compress s b h k, sha1_compress-IsState s b)

-- The digest that `sha1` computes of a message of bytes is the standard's.
pub sha1-digest : (m : Bytes) → All IsByte m → sha1 m ≡ Standard.digest m
unfolding sha1 Standard.digest
sha1-digest m h =
    let blocks = message_blocks-IsBlock m h in
    let start : IsState sha1_initial =
      (omega arith, omega arith, omega arith, omega arith, omega arith) in
    let states =
      foldl_agree IsState sha1_compress Standard.compress sha1_compress-step sha1_initial
        (message_blocks m) start blocks in
    ap sha1_output (absorb-process sha1_compress sha1_compress-take sha1_initial m ∙ states.0)
    ∙ sha1_output-output (process Standard.compress Standard.initial m)
