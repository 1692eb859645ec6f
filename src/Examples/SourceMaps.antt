-- ===== src/Examples/SourceMaps.antt =====
-- The references of a source map of the tests.
use kestrel_feature_mcp.Prelude.{String, ◌≡◌, refl, List, [], ◌∷◌, ok, throw, error, split}
use kestrel_feature_mcp.Value.{arr, strings}
use kestrel_feature_mcp.Notices.{read_identity, collect_references, embedded_package_references}
use kestrel_feature_mcp.Notices.References.{AreReferences, embedded_package_references-lists}

abbrev paths : List String
paths =
    "../node_modules/.pnpm/zod@3.25.1/node_modules/zod/index.ts" ∷ "src/own.ts"
    ∷ "/node_modules/.pnpm/@hono+node@1.2.3-rc.1_hono@4.0.0/node_modules/@hono/node/a/b.ts"
    ∷ "../node_modules/.pnpm/zod@3.25.1/node_modules/zod/other.ts" ∷ []

references :
    embedded_package_references (arr (strings paths))
    ≡ ok ("@hono/node@1.2.3-rc.1" ∷ "zod@3.25.1" ∷ [])
unfolding embedded_package_references collect_references read_identity split
references = refl

-- A locator of another package is refused.
refused :
    embedded_package_references (arr (strings ("node_modules/.pnpm/a@1.0.0/node_modules/b/c" ∷ [])))
    ≡ throw
        (error "Invalid embedded dependency identity: node_modules/.pnpm/a@1.0.0/node_modules/b/c")
unfolding embedded_package_references collect_references read_identity split
refused = refl

embedded_package_references-lists_example :
    AreReferences paths ("@hono/node@1.2.3-rc.1" ∷ "zod@3.25.1" ∷ [])
embedded_package_references-lists_example =
    embedded_package_references-lists paths ("@hono/node@1.2.3-rc.1" ∷ "zod@3.25.1" ∷ []) references
