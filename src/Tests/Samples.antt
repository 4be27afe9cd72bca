-- ===== src/Tests/Samples.antt =====
-- The inputs at which the theorems are applied.
use mhda.Address
use mhda.Address.{Address}
use mhda.Base.{◌≡◌, refl, true, [], ◌∷◌, List, none, some, Bytes, codes}
use mhda.Chain
use mhda.Chain.{Chain, Iteration}
use mhda.Nss.{Components}
use mathlib.Core.List.{Permᴰ}
use mathlib.Core.List.Permᴰ
use mhda.DerivationPath.Class.{DerivationPath, hard, soft}
use mhda.DerivationPath.Text.{AddressIndex}
use mhda.Error.{ok}
use mhda.Names.Algorithm
use mhda.Names.DerivationType
use mhda.Names.Format
use mhda.Names.NetworkType
use mhda.Parser.{parse_urn}
use mhda.Tests.Everything.{everything}

abbrev pub sample_urn : Bytes
sample_urn = codes " URN:mhda:ci:1:nt:EVM:ct:0x3c:dt:bip44:dp:m/44h/60'/0H/0/7:af:Hex:zz:9 ?+q#f"

-- an order of visits in which the first two entries have changed places
abbrev pub swap_first : Components → Components
swap_first (a ∷ b ∷ m) = b ∷ a ∷ m
swap_first m = m

pub swap_first-perm : (m : Components) → Permᴰ m (swap_first m)
swap_first-perm [] = Permᴰ.nil
swap_first-perm (a ∷ []) = Permᴰ.refl (a ∷ [])
swap_first-perm (a ∷ b ∷ m) = Permᴰ.swap refl refl

abbrev pub swapped : Iteration
swapped = record { order = swap_first; order_perm = swap_first-perm }

-- an address whose chain was given a network and no id
abbrev pub half_set : Address
half_set = Address.of_chain (record Chain.default { network = NetworkType.ethereum_vm }) none

abbrev pub sample_levels : List AddressIndex
sample_levels = hard 44 ∷ hard 60 ∷ hard 0 ∷ soft 0 ∷ soft 7 ∷ []

abbrev pub sample_path : DerivationPath
sample_path = record {
  type = DerivationType.bip44;
  coin = 60;
  account = 0;
  charge = 0;
  index = soft 7;
  has_index = true;
  levels = sample_levels;
}

abbrev pub sample_chain : Chain
sample_chain = record { network = NetworkType.ethereum_vm; chain_id = codes "1"; coin = some 60 }

abbrev pub sample_key : Chain
sample_key = record { network = NetworkType.ethereum_vm; chain_id = codes "1"; coin = none }

abbrev pub sample : Address
sample = record {
  chain = sample_chain;
  path = some sample_path;
  algorithm = Algorithm.unset;
  format = Format.hex;
  prefix = [];
  suffix = [];
  wallet_type = [];
  wallet_id = [];
}

pub sample_parses : parse_urn sample_urn ≡ ok sample
unfolding everything
sample_parses = refl
