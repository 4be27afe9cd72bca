-- ===== src/Hash/Schedule.antt =====
-- src/hash.cpp: the words of a block, as both compressions load them, are the standard's.
use mhda.Base.{
  IsByte, ℕ, zero, suc, ◌+◌, ◌-◌, ◌*◌, ◌≤◌, ◌≡◌, refl, sym, ap, ◌∙◌, arith, List, [], ◌∷◌, ◌++◌,
  Bytes, length, take, drop, All, All-get_or, length-append, get_or-take, drop-get_or, drop-eq-nil,
}
use mhda.Hash.Standard.{words, back}
use mhda.Hash.Word.{load_word, load_words, byte_at}
use mhda.Hash.Word.Values.{IsWord, load_word-value, word_of}

abbrev pub IsBlock : Bytes → Type 0
IsBlock b = (length b ≡ 64) × All IsByte b

pub words-All : (b : Bytes) → All IsByte b → All IsWord (words b)
unfolding words
words-All (a ∷ b ∷ c ∷ d ∷ rest) (ha, (hb, (hc, (hd, h)))) = (omega arith, words-All rest h)
words-All (a ∷ b ∷ c ∷ []) h = tt
words-All (a ∷ b ∷ []) h = tt
words-All (a ∷ []) h = tt
words-All [] h = tt

-- Four bytes more, at a place of the block.
words-drop :
    (j : ℕ) (block : Bytes)
    → j + 4 ≤ length block
    → words (drop j block)
      ≡ word_of
          (byte_at block j)
          (byte_at block (j + 1))
          (byte_at block (j + 2))
          (byte_at block (j + 3))
        ∷ words (drop (j + 4) block)
unfolding words
words-drop j block h =
    let second : j + 1 + 1 ≡ j + 2 = omega arith in
    let third : j + 2 + 1 ≡ j + 3 = omega arith in
    let fourth : j + 3 + 1 ≡ j + 4 = omega arith in
    rw
      (
        drop-get_or j block 0 (omega arith),
        drop-get_or (j + 1) block 0 (omega arith),
        second,
        drop-get_or (j + 2) block 0 (omega arith),
        third,
        drop-get_or (j + 3) block 0 (omega arith),
        fourth,
      )
      refl

pub load_words-words :
    (left i : ℕ) (block : Bytes)
    → length block ≡ 4 * (i + left)
    → All IsByte block
    → load_words block i left ≡ words (drop (4 * i) block)
unfolding load_words words
load_words-words zero i block e h = sym (ap words (drop-eq-nil (4 * i) block (omega arith)))
load_words-words (suc left) i block e h =
    let next : 4 * (i + 1) ≡ 4 * i + 4 = omega arith in
    let value = load_word-value block i (λ j. All-get_or IsByte block j 0 (omega arith) h) in
    let rest = load_words-words left (i + 1) block (omega arith) h in
    (λ k. value k ∷ (rest ∙ ap (λ t. words (drop t block)) next) k)
    ∙ sym (words-drop (4 * i) block (omega arith))

-- A compression reads the first 64 bytes of its block.
pub load_words-take :
    (left i : ℕ) (block : Bytes)
    → i + left ≤ 16
    → load_words (take 64 block) i left ≡ load_words block i left
unfolding load_words load_word
load_words-take zero i block h = refl
load_words-take (suc left) i block h =
    rw
      (
        get_or-take 64 block (4 * i) 0 (omega arith),
        get_or-take 64 block (4 * i + 1) 0 (omega arith),
        get_or-take 64 block (4 * i + 2) 0 (omega arith),
        get_or-take 64 block (4 * i + 3) 0 (omega arith),
        load_words-take left (i + 1) block (omega arith),
      )
      refl

pub back-IsWord : (w : List ℕ) (n : ℕ) → All IsWord w → IsWord (back w n)
back-IsWord w n h = All-get_or IsWord w (length w - n) 0 (omega arith) h

pub length-snoc : (w : List ℕ) (x i : ℕ) → length w ≡ i → length (w ++ (x ∷ [])) ≡ i + 1
length-snoc w x i e = omega (arith, length-append w (x ∷ []))

-- A whole number of words.
pub length-words : (k : ℕ) (b : Bytes) → length b ≡ 4 * k → length (words b) ≡ k
unfolding words
length-words zero [] e = refl
length-words zero (x ∷ b) e = absurd (omega arith)
length-words (suc k) (a ∷ b ∷ c ∷ d ∷ rest) e = omega (arith, length-words k rest (omega arith))
length-words (suc k) (a ∷ b ∷ c ∷ []) e = absurd (omega arith)
length-words (suc k) (a ∷ b ∷ []) e = absurd (omega arith)
length-words (suc k) (a ∷ []) e = absurd (omega arith)
length-words (suc k) [] e = absurd (omega arith)
