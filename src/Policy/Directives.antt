-- ===== src/Policy/Directives.antt =====
-- What a browser reads in the text of `sandboxCsp`: directives between semicolons, each a name and
-- its sources between spaces.
use text.Mathlib.TextLemmas.{append_assoc}
use kestrel_feature_mcp.Prelude.{
  String, true, ◌≡◌, refl, ap, ◌∙◌, ◌&&◌, List, [], ◌∷◌, ◌++◌, map, All, all, words, words-append,
  words-join, words-split, is_word, lacks, lacks-append, lacks-join, and-true_parts, split, join,
}
use kestrel_feature_mcp.Json.{◌<>◌}
use kestrel_feature_mcp.Policy.{Csp, domains, csp_directives, sandbox_csp}

-- The serialized policy, parsed as the CSP standard does.
abbrev pub parse_csp : String → List (List String)
parse_csp s = map words (split b';' s)

abbrev pub sources : List String → List String
sources [] = "'none'" ∷ []
sources (o ∷ os) = o ∷ os

-- The policy that a View is meant to have.
abbrev pub view_policy : Csp → List (List String)
view_policy csp =
    ("default-src" ∷ "'none'" ∷ [])
    ∷ ("script-src" ∷ "'unsafe-inline'" ∷ csp.resource_domains)
    ∷ ("style-src" ∷ "'unsafe-inline'" ∷ csp.resource_domains)
    ∷ ("img-src" ∷ "data:" ∷ csp.resource_domains)
    ∷ ("media-src" ∷ "data:" ∷ csp.resource_domains)
    ∷ ("font-src" ∷ sources csp.resource_domains)
    ∷ ("connect-src" ∷ sources csp.connect_domains)
    ∷ ("frame-src" ∷ sources csp.frame_domains)
    ∷ ("base-uri" ∷ sources csp.base_uri_domains)
    ∷ ("object-src" ∷ "'none'" ∷ [])
    ∷ ("form-action" ∷ "'none'" ∷ [])
    ∷ ("worker-src" ∷ "'none'" ∷ [])
    ∷ []

-- Texts without a space or a semicolon, and not empty.
abbrev pub IsClean : List String → Type 0
IsClean os = All (λ o. (is_word o && lacks b';' o) ≡ true) os

clean_words : (os : List String) → IsClean os → All (λ o. is_word o ≡ true) os
clean_words [] h = tt
clean_words (o ∷ os) h = ((and-true_parts _ _ h.0).0, clean_words os h.1)

clean_lacks : (os : List String) → IsClean os → All (λ o. lacks b';' o ≡ true) os
clean_lacks [] h = tt
clean_lacks (o ∷ os) h = ((and-true_parts _ _ h.0).1, clean_lacks os h.1)

words-domains : (os : List String) → IsClean os → words (domains os) ≡ sources os
unfolding split
words-domains [] h = refl
words-domains (o ∷ os) h = words-join (o ∷ os) (clean_words (o ∷ os) h)

lacks-domains : (os : List String) → IsClean os → lacks b';' (domains os) ≡ true
lacks-domains [] h = refl
lacks-domains (o ∷ os) h = lacks-join b';' " " (o ∷ os) refl (clean_lacks (o ∷ os) h)

-- The words of a text that ends in a space, and of what follows it.
words-prefix : (s t : String) → words ((s <> " ") <> t) ≡ words s ++ words t
words-prefix s t = ap words (append_assoc s " " t) ∙ words-append s t

All-lacks : (ds : List String) → all (lacks b';') ds ≡ true → All (λ d. lacks b';' d ≡ true) ds
All-lacks [] h = tt
All-lacks (d ∷ ds) h = let (here, later) = and-true_parts _ _ h in (here, All-lacks ds later)

module _ (csp : Csp) (connect : IsClean csp.connect_domains)
    (resource : IsClean csp.resource_domains) (frame : IsClean csp.frame_domains)
    (base : IsClean csp.base_uri_domains) where
  resources_words : words (join " " csp.resource_domains) ≡ csp.resource_domains
  resources_words = words-join csp.resource_domains (clean_words csp.resource_domains resource)

  resources_lack : lacks b';' (join " " csp.resource_domains) ≡ true
  resources_lack =
      lacks-join b';' " " csp.resource_domains refl (clean_lacks csp.resource_domains resource)

  directives_lack : all (lacks b';') (csp_directives csp) ≡ true
  unfolding csp_directives
  directives_lack = simp (
    lacks-append,
    resources_lack,
    lacks-domains csp.resource_domains resource,
    lacks-domains csp.connect_domains connect,
    lacks-domains csp.frame_domains frame,
    lacks-domains csp.base_uri_domains base,
  )

  directives_words : map words (csp_directives csp) ≡ view_policy csp
  unfolding csp_directives split
  directives_words = simp (
    words-prefix "script-src 'unsafe-inline'" (join " " csp.resource_domains),
    words-prefix "style-src 'unsafe-inline'" (join " " csp.resource_domains),
    words-prefix "img-src data:" (join " " csp.resource_domains),
    words-prefix "media-src data:" (join " " csp.resource_domains),
    words-prefix "font-src" (domains csp.resource_domains),
    words-prefix "connect-src" (domains csp.connect_domains),
    words-prefix "frame-src" (domains csp.frame_domains),
    words-prefix "base-uri" (domains csp.base_uri_domains),
    words-domains csp.resource_domains resource,
    words-domains csp.connect_domains connect,
    words-domains csp.frame_domains frame,
    words-domains csp.base_uri_domains base,
    resources_words,
  )

  -- No source can leave its directive: for origins that are not empty and hold neither a space nor a
  -- semicolon, the text that `sandboxCsp` writes reads back as the twelve directives, each with its
  -- keywords and exactly the origins of its list, or `'none'` where that list is empty.
  pub parse_csp-sandbox_csp : parse_csp (sandbox_csp csp) ≡ view_policy csp
  unfolding sandbox_csp csp_directives
  parse_csp-sandbox_csp =
      words-split _ _ (All-lacks (csp_directives csp) directives_lack) ∙ directives_words
