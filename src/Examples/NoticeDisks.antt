-- ===== src/Examples/NoticeDisks.antt =====
-- The notices of a disk of the tests, with one bundle that embeds one package.
use kestrel_feature_mcp.Prelude.{
  String, true, false, ◌≡◌, refl, some, List, [], ◌∷◌, any, includes, ok, throw, error, split,
  lookup, ◌==◌, if◌then◌else◌,
}
use kestrel_feature_mcp.Json.{◌<>◌}
use kestrel_feature_mcp.Value.{
  Value, obj, arr, num, str, nonneg, field, end, cons, nil, strings, get,
}
use kestrel_feature_mcp.Notices.{read_identity, collect_references, embedded_package_references}
use kestrel_feature_mcp.NoticeFiles.{
  Disk, Notices, known_of, add_identities, read_source_map, add_source_map, visit, gather,
  read_license, read_licenses, notice_of, notices_of, collect_embedded_notices,
}
use kestrel_feature_mcp.NoticeFiles.Completeness.{is_notice, collect_embedded_notices-lists}

abbrev hash : String
hash = "00000000000000000000000000000000000000000000000000000000000000aa"

abbrev inventory : Value
inventory = obj (
    field "format" (num (nonneg 1)) (
      field "packages"
        (arr (
          cons
            (obj (
              field "name" (str "zod") (
                field "version" (str "3.25.1") (
                  field "license" (str "MIT")
                    (field "licenseFiles" (obj (field "licenses/zod.txt" (str hash) end)) end)))))
            nil))
        end))

abbrev source_map : Value
source_map = obj (
    field "version" (num (nonneg 3)) (
      field "sources"
        (arr (strings ("../node_modules/.pnpm/zod@3.25.1/node_modules/zod/index.ts" ∷ []))) end))

abbrev disk : Disk
disk = record {
  inventory_text = ok "inventory";
  read = λ path.
      if path == "/web/app.js.map"
      then ok (1 ∷ [])
      else if path == "/web/licenses/zod.txt"
      then ok (2 ∷ [])
      else throw (error "ENOENT");
  stat = λ path. ok (true, false);
  is_missing = λ e. true;
  parse = λ text. ok (if text == "inventory" then inventory else source_map);
  sha256 = λ bytes. hash;
  decode = λ bytes. some "text";
  resolve = λ name. "/web/" <> name;
  licenses_folder = "/web/licenses/";
  locale_leb = λ a b. true;
}

abbrev notices : Notices
notices = record {
  dependencies =
      record {
        name = str "zod";
        version = str "3.25.1";
        license = "MIT";
        licenses = record { name = "licenses/zod.txt"; text = "text" } ∷ [];
        embedded_in = "app.js" ∷ [];
      }
      ∷ [];
  source_maps = ("app.js.map", hash) ∷ [];
  source_files = "licenses/zod.txt" ∷ "vendor-notices.json" ∷ [];
}

collected : collect_embedded_notices disk ("own.js" ∷ "app.js" ∷ []) ≡ ok notices
unfolding collect_embedded_notices known_of gather visit add_source_map read_source_map
    add_identities notices_of notice_of read_licenses read_license embedded_package_references
    collect_references read_identity split lookup get
collected = refl

collect_embedded_notices-lists_example :
    (ids : List String) × (read_source_map disk (1 ∷ []) ≡ ok ids)
    × ((key : String)
        → includes ids key ≡ true
        → any (is_notice key "app.js") notices.dependencies ≡ true)
collect_embedded_notices-lists_example =
    collect_embedded_notices-lists disk ("own.js" ∷ "app.js" ∷ []) notices "app.js" (1 ∷ [])
      collected refl refl
