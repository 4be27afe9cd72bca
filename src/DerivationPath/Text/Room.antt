-- ===== src/DerivationPath/Text/Room.antt =====
-- src/derivation_path.cpp and src/address.cpp: the loop of `append_uint32` ends, and its buffers hold.
use mhda.Base.{
  ℕ, zero, suc, ◌+◌, ◌/◌, ◌%◌, ◌≤◌, ◌<◌, ◌≡◌, refl, [], ◌∷◌, Bytes, ◌==◌, arith, length, ◌≢◌,
  Bool-cases, inl, inr,
}
use mhda.DerivationPath.Text.Decimal.{largest, IsUint32, length-decimal_digits, decimal-exactly}
use mhda.DerivationPath.Text.{decimal_digits, decimal, buffer_size}

-- A loop that has rounds enough does not see further ones.
room_enough :
    (need room v : ℕ) (out : Bytes)
    → v ≤ largest need
    → need ≤ room
    → decimal_digits room v out ≡ decimal_digits need v out
unfolding decimal_digits
room_enough zero zero v out h l = refl
room_enough zero (suc room) v out h l = let e : v ≡ 0 = omega arith in rw e refl
room_enough (suc need) zero v out h l = absurd (omega arith)
room_enough (suc need) (suc room) v out h l =
    ground
      (arith, room_enough need room (v / 10) ((b'0' + v % 10) ∷ out) (omega arith) (omega arith))

decimal-length : (v : ℕ) → IsUint32 v → length (decimal v) ≤ 10
unfolding decimal
decimal-length v h = elim (Bool-cases (v == 0)) [
  | inl e ↦ rw e (omega arith)
  | inr e ↦
      rw (e, room_enough 10 buffer_size v [] (omega arith) (omega arith))
        (length-decimal_digits 10 v [])
]

length_pos : (s : Bytes) → s ≢ [] → 0 < length s
length_pos [] h = absurd (h refl)
length_pos (c ∷ s) h = omega arith

-- For every uint32_t the loop ends within ten rounds: any larger room gives the same digits, and
-- the text has at least one and at most ten of them, fewer than the buffers hold.
pub decimal_digits_ends :
    (room v : ℕ)
    → IsUint32 v
    → 10 ≤ room
    → (decimal_digits room v [] ≡ decimal_digits 10 v [])
      × (0 < length (decimal v))
      × (length (decimal v) ≤ 10)
      × (length (decimal v) < buffer_size)
decimal_digits_ends room v h l =
    let short = decimal-length v h in
    (
      room_enough 10 room v [] (omega arith) l,
      length_pos (decimal v) (decimal-exactly v h).1,
      short,
      omega arith,
    )
