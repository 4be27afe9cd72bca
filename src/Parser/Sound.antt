-- ===== src/Parser/Sound.antt =====
-- src/parser.cpp: the addresses that `parse_urn` and `parse_nss` return.
use mathlib.Core.Path.{subst}
use mhda.Address.Print.{str, nss}
use mhda.Address.Setters.Derivation.{set_derivation_lem}
use mhda.Address.Setters.Preserve.{
  Preserves, Preserves-then, IsValid-of, IsIdentity, preserve_algorithm, preserve_format,
  preserve_prefix, preserve_suffix, preserve_wallet_type, preserve_wallet_id,
}
use mhda.Address.Setters.{
  set_address_algorithm, set_address_format, set_address_prefix, set_address_suffix,
  set_wallet_type, set_wallet_id,
}
use mhda.Address.Valid.{IsValid}
use mhda.Address.{Address, of_chain}
use mhda.Base.{◌≡◌, refl, none, Bytes, not, has_key, inl, drop, length}
use mhda.Chain.Sound.{build_chain-IsIdentity}
use mhda.Chain.{Chain, build_chain}
use mhda.Detail.Ascii.{trim, trim_right, strip_rqf, has_prefix_fold}
use mhda.Error.Method.{Method, ◌>>◌, continue, finished}
use mhda.Error.{Result, ok, err, >>=-eq-ok, ok_injective, err≢ok, past_throw}
use mhda.Nss.{
  prefix_mhda, Components, parse_nss_map, comp_network_type, comp_address_algorithm,
  comp_address_format, comp_address_prefix, comp_address_suffix, comp_wallet_type, comp_wallet_id,
}
use mhda.Parser.RoundTrip.{parse_urn-str, parse_nss-nss}
use mhda.Parser.{
  get, set_components, parse_address_from_components, parse_address_nss, parse_urn, parse_nss,
}

finished-continue :
    (x : Address × Result (Unit {0})) (k : Method Address (Unit {0})) {b : Address}
    → finished (continue x (λ _. k)) ≡ ok b
    → (s : Address) × (finished x ≡ ok s) × (finished (k s) ≡ ok b)
finished-continue (s, ok u) k h = (s, refl, h)
finished-continue (s, err e) k h = absurd (err≢ok h)

finished-state : (x : Address × Result (Unit {0})) {b : Address} → finished x ≡ ok b → x.0 ≡ b
finished-state (s, ok u) h = ok_injective h
finished-state (s, err e) h = absurd (err≢ok h)

-- the calls behind `set_derivation`, from each of them on
abbrev wallets : Components → Method Address (Unit {0})
wallets m = do set_wallet_type (get comp_wallet_type m); set_wallet_id (get comp_wallet_id m)

wallets-Preserves : (m : Components) → Preserves (wallets m)
wallets-Preserves m =
    Preserves-then (set_wallet_type (get comp_wallet_type m)) (set_wallet_id (get comp_wallet_id m))
      (preserve_wallet_type (get comp_wallet_type m)) (preserve_wallet_id (get comp_wallet_id m))

abbrev from_suffix : Components → Method Address (Unit {0})
from_suffix m = do set_address_suffix (get comp_address_suffix m); wallets m

from_suffix-Preserves : (m : Components) → Preserves (from_suffix m)
from_suffix-Preserves m =
    Preserves-then (set_address_suffix (get comp_address_suffix m)) (wallets m)
      (preserve_suffix (get comp_address_suffix m)) (wallets-Preserves m)

abbrev from_prefix : Components → Method Address (Unit {0})
from_prefix m = do set_address_prefix (get comp_address_prefix m); from_suffix m

from_prefix-Preserves : (m : Components) → Preserves (from_prefix m)
from_prefix-Preserves m =
    Preserves-then (set_address_prefix (get comp_address_prefix m)) (from_suffix m)
      (preserve_prefix (get comp_address_prefix m)) (from_suffix-Preserves m)

abbrev from_format : Components → Method Address (Unit {0})
from_format m = do set_address_format (get comp_address_format m); from_prefix m

from_format-Preserves : (m : Components) → Preserves (from_format m)
from_format-Preserves m =
    Preserves-then (set_address_format (get comp_address_format m)) (from_prefix m)
      (preserve_format (get comp_address_format m)) (from_prefix-Preserves m)

abbrev behind : Components → Method Address (Unit {0})
behind m = do set_address_algorithm (get comp_address_algorithm m); from_format m

behind-Preserves : (m : Components) → Preserves (behind m)
behind-Preserves m =
    Preserves-then (set_address_algorithm (get comp_address_algorithm m)) (from_format m)
      (preserve_algorithm (get comp_address_algorithm m)) (from_format-Preserves m)

set_components-IsValid :
    (m : Components) (c : Chain) {a : Address}
    → IsIdentity c
    → finished (set_components m (of_chain c none)) ≡ ok a
    → IsValid a
unfolding set_components
set_components-IsValid m c i h =
    let (s, first, rest) = finished-continue _ (behind m) h in
    let (path, set, made) = set_derivation_lem _ _ (of_chain c none) first in
    let start : IsValid s =
      subst IsValid made (IsValid-of (of_chain c path) i set (inl refl) (inl refl) tt tt tt tt) in
    subst IsValid (finished-state (behind m s) rest) (behind-Preserves m s start)

parse_address_nss-IsValid : (text : Bytes) {a : Address} → parse_address_nss text ≡ ok a → IsValid a
unfolding parse_address_nss parse_address_from_components
parse_address_nss-IsValid text h =
    let (m, _, h) = >>=-eq-ok (parse_nss_map text) _ h in
    let (_, h) = past_throw (not (has_key comp_network_type m)) _ _ h in
    let (c, built, h) = >>=-eq-ok (build_chain m) _ h in
    set_components-IsValid m c (build_chain-IsIdentity m built) h

-- Every address that `parse_urn` returns is valid: its network is registered, its chain id is not
-- empty and holds NSS bytes only, its coin type, if any, is below 2^32, its path is set and is read
-- back from its text, its algorithm and format are registered or unset, and its free-form values
-- hold NSS bytes only.
pub parse_urn-IsValid : (text : Bytes) {a : Address} → parse_urn text ≡ ok a → IsValid a
unfolding parse_urn
parse_urn-IsValid text h =
    parse_address_nss-IsValid (trim_right (strip_rqf (drop (length prefix_mhda) (trim text))))
      (past_throw (not (has_prefix_fold (trim text) prefix_mhda)) _ _ h).1

-- Every address that `parse_nss` returns is valid.
pub parse_nss-IsValid : (text : Bytes) {a : Address} → parse_nss text ≡ ok a → IsValid a
unfolding parse_nss
parse_nss-IsValid text h = parse_address_nss-IsValid (trim text) h

-- Whatever text an address was parsed from, its URN and its NSS are parsed into the same address,
-- field by field.
pub parse_urn-canonical :
    (text : Bytes) {a : Address}
    → parse_urn text ≡ ok a
    → (parse_urn (str a) ≡ ok a) × (parse_nss (nss a) ≡ ok a)
parse_urn-canonical text {a} h =
    let v = parse_urn-IsValid text h in (parse_urn-str a v, parse_nss-nss a v)
