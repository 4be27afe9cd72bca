-- ===== src/Address/Decimal.antt =====
-- src/address.cpp has a copy of `append_uint32` of its own, which appends digit by digit from behind.
use mhda.Base.{
  ℕ, zero, suc, ◌+◌, ◌/◌, ◌%◌, ◌≤◌, ◌<◌, ◌≡◌, refl, sym, ◌∙◌, ap, [], ◌∷◌, ◌++◌, Bytes, ◌==◌,
  if◌then◌else◌, arith, length, length-append, get_or, append_assoc, append-nil, Bool-cases, inl,
  inr,
}
use mhda.DerivationPath.Text
use mhda.DerivationPath.Text.{decimal_digits, decimal, buffer_size}

-- `while (v) { tmp[n++] = '0' + v % 10; v /= 10; }`; the fuel is the room that `tmp` has left
unfoldable pub fill_digits : ℕ → ℕ → Bytes → Bytes
fill_digits zero v tmp = tmp
fill_digits (suc room) v tmp =
    let more = fill_digits room (v / 10) (tmp ++ (b'0' + v % 10) ∷ []) in
    if v == 0 then tmp else more

-- `for (int i = n - 1; i >= 0; --i) out.push_back(tmp[i]);`, at `n`
unfoldable pub push_digits : ℕ → Bytes → Bytes → Bytes
push_digits zero tmp out = out
push_digits (suc i) tmp out = push_digits i tmp (out ++ get_or tmp i 0 ∷ [])

unfoldable pub append_uint32 : Bytes → ℕ → Bytes
append_uint32 out v =
    if v == 0
    then out ++ b'0' ∷ []
    else (let tmp = fill_digits buffer_size v [] in push_digits (length tmp) tmp out)

get_or-last : (tmp : Bytes) (d : ℕ) → get_or (tmp ++ d ∷ []) (length tmp) 0 ≡ d
get_or-last [] d = refl
get_or-last (c ∷ tmp) d = get_or-last tmp d

get_or-front :
    (tmp : Bytes) (d i : ℕ) → i < length tmp → get_or (tmp ++ d ∷ []) i 0 ≡ get_or tmp i 0
get_or-front [] d i h = absurd (omega arith)
get_or-front (c ∷ tmp) d zero h = refl
get_or-front (c ∷ tmp) d (suc i) h = get_or-front tmp d i (omega arith)

push_digits-front :
    (i : ℕ) (tmp out : Bytes) (d : ℕ)
    → i ≤ length tmp
    → push_digits i (tmp ++ d ∷ []) out ≡ push_digits i tmp out
unfolding push_digits
push_digits-front zero tmp out d h = refl
push_digits-front (suc i) tmp out d h =
    rw (get_or-front tmp d i (omega arith)) (push_digits-front i tmp _ d (omega arith))

push_digits-append : (i : ℕ) (tmp out : Bytes) → push_digits i tmp out ≡ out ++ push_digits i tmp []
unfolding push_digits
push_digits-append zero tmp out = sym (append-nil out)
push_digits-append (suc i) tmp out =
    push_digits-append i tmp (out ++ get_or tmp i 0 ∷ [])
    ∙ append_assoc out (get_or tmp i 0 ∷ []) (push_digits i tmp [])
    ∙ ap (λ s. out ++ s) (sym (push_digits-append i tmp (get_or tmp i 0 ∷ [])))

-- all the digits, the last one first
abbrev pushed : Bytes → Bytes
pushed tmp = push_digits (length tmp) tmp []

pushed-last : (tmp : Bytes) (d : ℕ) → pushed (tmp ++ d ∷ []) ≡ d ∷ pushed tmp
unfolding push_digits
pushed-last tmp d =
    let long : length (tmp ++ d ∷ []) ≡ suc (length tmp) =
      omega (arith, length-append tmp (d ∷ [])) in
    rw (long, push_digits, get_or-last tmp d)
      (push_digits-front (length tmp) tmp (d ∷ []) d (omega arith)
        ∙ push_digits-append (length tmp) tmp (d ∷ []))

pushed-fill :
    (room v : ℕ) (tmp : Bytes)
    → pushed (fill_digits room v tmp) ≡ decimal_digits room v (pushed tmp)
unfolding fill_digits decimal_digits
pushed-fill zero v tmp = refl
pushed-fill (suc room) v tmp = elim (Bool-cases (v == 0)) [
  | inl e ↦ rw e refl
  | inr e ↦ rw e (
      pushed-fill room (v / 10) (tmp ++ (b'0' + v % 10) ∷ [])
      ∙ ap (decimal_digits room (v / 10)) (pushed-last tmp (b'0' + v % 10)))
]

-- The copies of `append_uint32` in src/address.cpp and in src/derivation_path.cpp append the same
-- text, for every text and every number.
pub append_uint32_same : (out : Bytes) (v : ℕ) → append_uint32 out v ≡ Text.append_uint32 out v
unfolding append_uint32 Text.append_uint32 decimal push_digits
append_uint32_same out v = elim (Bool-cases (v == 0)) [
  | inl e ↦ rw e refl
  | inr e ↦ rw e (
      push_digits-append (length (fill_digits buffer_size v [])) (fill_digits buffer_size v []) out
      ∙ ap (λ s. out ++ s) (pushed-fill buffer_size v []))
]
