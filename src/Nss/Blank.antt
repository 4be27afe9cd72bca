-- ===== src/Nss/Blank.antt =====
-- src/nss_parser.cpp: `parse_nss_map` on an NSS whose second component has no value.
use mhda.Base.{◌≡◌, ◌≢◌, refl, true, [], ◌∷◌, ◌++◌, Bytes, All, All-imp, arith, codes, length, ◌%◌}
use mhda.Detail.Ascii.Sets.{IsNssByte, all_nss_bytes-All}
use mhda.Detail.Ascii.Split.{joined, tailed, split-joined}
use mhda.Detail.Quote.{quote}
use mhda.Error.{throw, invalid_nss}
use mhda.Nss.Pairs.{
  IsComponent, IsNssText, parts, known-IsKey, append-is_empty, add_component-new, length-parts,
  parts-IsNssByte, parts-Lacks, first_delimiter-none, joined-IsNssText,
}
use mhda.Nss.{
  Components, is_known_component, add_component, add_components, parse_parts, parse_delimited,
  parse_nss_map,
}

-- a component with a value, a key with none, and further components
abbrev pub blank_text : Bytes → Bytes → Bytes → Components → Bytes
blank_text k v j m = joined b':' (k ∷ v ∷ j ∷ [] ∷ parts m)

module _ (k v j : Bytes) (m : Components) (first : IsComponent (k, v))
    (second : is_known_component j ≡ true) (rest : All IsComponent m) where
  abbrev blank_parts : All (All IsNssByte) (k ∷ v ∷ j ∷ [] ∷ parts m)
  blank_parts = (
    all_nss_bytes-All k (known-IsKey k first.0).1,
    (first.2, (all_nss_bytes-All j (known-IsKey j second).1, (tt, parts-IsNssByte m rest))),
  )

  pub blank-IsNssText : All IsNssText (blank_text k v j m)
  blank-IsNssText = joined-IsNssText (k ∷ v ∷ j ∷ [] ∷ parts m) blank_parts

  add_component-blank :
      (out : Components)
      → add_component j [] out ≡ throw invalid_nss (codes "empty value for " ++ quote j)
  unfolding add_component
  add_component-blank out = let (filled, bytes) = known-IsKey j second in rw (filled, bytes) refl

  even : length (k ∷ v ∷ j ∷ [] ∷ parts m) % 2 ≡ 0
  even = omega (arith, length-parts m)

  -- An NSS with an empty value behind its second key is refused.
  pub parse_nss_map-blank :
      parse_nss_map (blank_text k v j m) ≡ throw invalid_nss (codes "empty value for " ++ quote j)
  unfolding parse_nss_map parse_delimited parse_parts add_components
  parse_nss_map-blank =
      let q = All-imp IsNssText (λ c. c ≢ b'?') (λ c t. t.2) (blank_text k v j m) blank-IsNssText in
      let f = All-imp IsNssText (λ c. c ≢ b'#') (λ c t. t.3) (blank_text k v j m) blank-IsNssText in
      rw
        (
          append-is_empty k (tailed b':' (v ∷ j ∷ [] ∷ parts m)) (known-IsKey k first.0).0,
          first_delimiter-none (blank_text k v j m) q f,
          split-joined b':' k (v ∷ j ∷ [] ∷ parts m)
              (parts-Lacks (k ∷ v ∷ j ∷ [] ∷ parts m) blank_parts),
          even,
          add_component-new k v [] first tt,
          add_component-blank ((k, v) ∷ []),
        )
        refl
