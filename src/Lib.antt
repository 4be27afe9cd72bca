-- ===== src/Lib.antt =====
-- MHDA: parsing, validation and printing of multi-chain hierarchical-derivation addresses, the C++
-- library under include/mhda and src.
--
-- An address names a key: a chain (network type and chain id, with an optional coin type), a
-- derivation path, an algorithm and a format, and free-form values. Its text is a URN,
-- "urn:mhda:nt:...:ci:...", whose NSS is a sequence of key:value components. `parse_urn` strips
-- the prefix and hands the NSS to `parse_nss_map`, `build_chain` makes the chain of the components
-- and the setters of `address` the rest; `nss` and `str` print the address again, and `validate`
-- checks it against the compatibility matrix.
--
-- The parts, and the files that model them:
-- - Error: error codes, their messages, exceptions as values (include/mhda/error.hpp,
--   src/error.cpp). A function that may throw returns a `Result`. A method that changes its object
--   is a function from the object to the object after the call and a `Result` (Error.Method), so
--   what a failed call leaves behind is a part of the model.
-- - Detail: texts and numbers (src/detail.hpp, src/detail.cpp). Ascii holds the text helpers,
--   Number the two number parsers, Quote `quote` and `validate_free_form_value`.
-- - Names: the classes over one string with an index of registered texts
--   (include/mhda/{algorithm,format,network_type,derivation_type}.hpp and their .cpp files).
-- - DerivationPath: src/derivation_path.cpp and its header. Levels reads the raw levels of a text,
--   Layout asks of them what a derivation type wants, Class is the state and `str`, Parse the
--   parser and the two methods that change a path, Construct the constructors, Text the print.
--   Layout.Forms spells the layouts out as lists of levels.
-- - Nss: `parse_nss_map` (src/nss_parser.hpp, src/nss_parser.cpp).
-- - Chain: the class `chain` (include/mhda/chain.hpp, src/chain.cpp, src/internal.hpp).
-- - CoinType: the SLIP-44 constants (include/mhda/coin_type.hpp).
-- - Compatibility: the matrix and its queries (src/compatibility.hpp, src/compatibility.cpp);
--   Defaults and Usable check the matrix against the registered names.
-- - Address: the class `address` (include/mhda/address.hpp, src/address.cpp). Setters are the
--   methods that change it, Print its texts, Decimal its own print of a number, Digest its hashes,
--   Validate the strict checks, Valid the invariant.
-- - Hash: SHA-1 and SHA-256 (src/hash.cpp, src/hash.hpp). Word has the 32-bit operations, Blocks the
--   loops over a message and its padded end, Sha1 and Sha256 the two compressions, Hex the print.
--   Standard, and the module of that name in Sha1 and Sha256, say what FIPS 180-4 asks for.
-- - Parser: the entry points (include/mhda/parser.hpp, src/parser.cpp), with `unmarshal_text`.
-- - Basic: the smoke program (examples/basic.cpp), its output and its exit code.
-- - ByKey: the command-line tool (examples/by_key.cpp), its report and its exit code.
-- - Base: names passed on from the libraries, tests into Bool, lists, association lists, bytes.
-- - Tests: runs at fixed inputs, and the theorems at concrete inputs.
--
-- How the code is modelled: a text is a list of bytes, a byte a natural number (below 256 where
-- that matters). A view that a loop shortens is the rest of the list. An optional is an `Option`,
-- an `unordered_map` an association list in the order of insertion, an `unordered_set` a list;
-- the code asks of them whether a key is there and what stands at it, and only `chain::from_key`
-- loops over one: the order of its visits is a parameter (Chain.Iteration), with the hypothesis
-- that they are the entries of the map in some order. An index or a coin
-- type is a natural number that is proved to be below 2^31 or 2^32 where the parsers return it;
-- the 64-bit accumulator of `parse_in_base` is written with its wrap-around. The loop that prints
-- a number runs on the room of its buffer, 16 digits, and ten are enough for a uint32_t. All
-- other loops over a text are recursion on the list. A word of the hashes is a natural number, and
-- the wrap-around of a sum or a shift is written out; an array is a list, a pointer into a message
-- what follows it. The loops of the hashes count down what is left.
--
-- The hash of a string is a parameter of the hash of a name. What a sequence of calls can make of an
-- object is a relation: `Step` has a constructor for each method that changes the object, whether the
-- call returns or throws, and `Reach` starts from the constructors and the static functions
-- (DerivationPath.Lifecycle, Chain.Lifecycle, Parser.Lifecycle).
--
-- Not modelled: allocation, and the exceptions it may throw; what the tool writes to standard error;
-- accessors that only return a field, which are the fields of the records.
pub mod Base
pub mod Error
pub mod Hash
pub mod Detail
pub mod Names
pub mod DerivationPath
pub mod Nss
pub mod Chain
pub mod CoinType
pub mod Compatibility
pub mod Address
pub mod Parser
pub mod Basic
pub mod ByKey
pub mod Tests
