-- ===== src/Address.antt =====
-- The class `address`: include/mhda/address.hpp and src/address.cpp. `Setters` holds the methods
-- that change an address, `Print` its texts, `Digest` its hashes, and
-- `Validate` the strict checks.
pub mod Setters
pub mod Decimal
pub mod Print
pub mod Digest
pub mod Legible
pub mod Validate
pub mod Components
pub mod Valid
use mhda.Base.{Bool, [], Option, none, some, Bytes, if◌then◌else◌}
use mhda.Chain
use mhda.Chain.{Chain}
use mhda.Compatibility.{default_algorithm, default_format}
use mhda.DerivationPath.Class.{DerivationPath}
use mhda.Names.Algorithm
use mhda.Names.Algorithm.{Algorithm}
use mhda.Names.DerivationType
use mhda.Names.DerivationType.{DerivationType}
use mhda.Names.Format
use mhda.Names.Format.{Format}

pub record Address : Type 0 where
  pub chain : Chain
  pub path : Option DerivationPath
  pub algorithm : Algorithm
  pub format : Format
  pub prefix : Bytes
  pub suffix : Bytes
  pub wallet_type : Bytes
  pub wallet_id : Bytes

-- `address{c, path}`
abbrev pub of_chain : Chain → Option DerivationPath → Address
of_chain c p = record {
  chain = c;
  path = p;
  algorithm = Algorithm.unset;
  format = Format.unset;
  prefix = [];
  suffix = [];
  wallet_type = [];
  wallet_id = [];
}

-- `address()`
abbrev pub default : Address
default = of_chain Chain.default none

unfoldable pub path_type : Option DerivationPath → DerivationType
path_type none = DerivationType.root
path_type (some p) = if DerivationType.empty p.type then DerivationType.root else p.type

unfoldable pub get_derivation_type : Address → DerivationType
get_derivation_type a = path_type a.path

unfoldable pub resolved_algorithm : Address → Algorithm
resolved_algorithm a =
    if Algorithm.empty a.algorithm then default_algorithm a.chain.network else a.algorithm

unfoldable pub resolved_format : Address → Format
resolved_format a = if Format.empty a.format then default_format a.chain.network else a.format
