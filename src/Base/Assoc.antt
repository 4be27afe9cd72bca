-- ===== src/Base/Assoc.antt =====
-- `std::unordered_map` as an association list in the order of insertion.
use mathlib.Core.Bool.{Bool, true, false}
use mathlib.Core.List.{List, [], ◌∷◌}
use mathlib.Core.Option.{Option, none, some}
use mhda.Base.Chars.{Bytes, bytes_eq}
use mhda.Base.Tests.{if◌then◌else◌}

module _ {ℓ} {V : Type ℓ} where
  unfoldable pub find : Bytes → List (Bytes × V) → Option V
  unfolding bytes_eq
  find k [] = none
  find k ((j, v) ∷ m) = if bytes_eq k j then some v else find k m

  -- `count(k) != 0`, and `find(k) != end()`
  unfoldable pub has_key : Bytes → List (Bytes × V) → Bool
  unfolding find
  has_key k m = elim (find k m) [ none ↦ false | some _ ↦ true ]
