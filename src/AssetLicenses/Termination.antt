-- ===== src/AssetLicenses/Termination.antt =====
-- The climb from a folder to the package that it lies in.
use kestrel_feature_mcp.Prelude.{
  ℕ, zero, suc, ◌<◌, String, Bool, true, false, ◌≡◌, refl, Option, none, some, starts_with,
  utf16_length, Outcome, ok, throw, Exception, error, foreign, sym, arith, if◌then◌else◌,
}
use mathlib.Core.Path.{subst}
use kestrel_feature_mcp.Json.{◌<>◌}
use kestrel_feature_mcp.AssetLicenses.{Tree, Package, package_at, climb, license_for}

lower : (a b n : ℕ) → a < b → b < suc n → a < n
lower a b n h k = omega arith

abbrev reached : Option (Outcome Package) → Outcome Package
reached (some result) = result
reached none = throw (foreign "out of fuel")

module _ (t : Tree) where
  -- The turns of the loop as a relation of a folder and the result from there.
  pub data Climbs (input : String) : String → Outcome Package → Type 0 where
    outside :
        {folder : String}
        → starts_with t.modules_folder folder ≡ false
        → Climbs input folder (throw (error ("Cannot identify the bundled dependency: " <> input)))
    failed :
        {folder : String} {e : Exception}
        → starts_with t.modules_folder folder ≡ true
        → package_at t folder ≡ throw e
        → Climbs input folder (throw e)
    found :
        {folder : String} {p : Package}
        → starts_with t.modules_folder folder ≡ true
        → package_at t folder ≡ ok (some p)
        → Climbs input folder (ok p)
    above :
        {folder : String} {result : Outcome Package}
        → starts_with t.modules_folder folder ≡ true
        → package_at t folder ≡ ok none
        → Climbs input (t.dirname folder) result
        → Climbs input folder result

  -- `path.dirname` of a path below the folder of the packages.
  abbrev pub IsShortening : Type 0
  IsShortening =
      (folder : String)
      → starts_with t.modules_folder folder ≡ true
      → utf16_length (t.dirname folder) < utf16_length folder

  climb_lem :
      (n : ℕ) (input folder : String)
      → IsShortening
      → utf16_length folder < n
      → (result : Outcome Package) × (climb t n input folder ≡ some result)
        × Climbs input folder result
  unfolding climb
  climb_lem zero input folder shorter enough = absurd (omega arith)
  climb_lem (suc n) input folder shorter enough =
      by_place (starts_with t.modules_folder folder) refl (package_at t folder) refl λ below.
        climb_lem n input (t.dirname folder) shorter (lower _ _ n (shorter folder below) enough)
    where
      Reached : Option (Outcome Package) → Type 0
      Reached o = (result : Outcome Package) × (o ≡ some result) × Climbs input folder result

      by_place :
          (b : Bool)
          → starts_with t.modules_folder folder ≡ b
          → (turn : Outcome (Option Package)) → package_at t folder ≡ turn
          → (starts_with t.modules_folder folder ≡ true
              → (result : Outcome Package) × (climb t n input (t.dirname folder) ≡ some result)
                × Climbs input (t.dirname folder) result)
          → Reached (
              if b
              then elim turn [
                | throw e ↦ some (throw e)
                | ok (some p) ↦ some (ok p)
                | ok none ↦ climb t n input (t.dirname folder)
              ]
              else some (throw (error ("Cannot identify the bundled dependency: " <> input))))
      by_place false b turn e rest = (_, refl, outside b)
      by_place true b (throw x) e rest = (_, refl, failed b e)
      by_place true b (ok (some p)) e rest = (_, refl, found b e)
      by_place true b (ok none) e rest =
          let (result, more, turns) = rest b in (result, more, above b e turns)

  -- Where `path.dirname` shortens a path below the folder of the packages, the loop comes to an end
  -- within the fuel: `license_for` gives what the turns from the folder of the input lead to.
  pub license_for-Climbs :
      (input : String)
      → IsShortening
      → Climbs input (t.dirname (t.disk.resolve input)) (license_for t input)
  unfolding license_for
  license_for-Climbs input shorter =
      let folder = t.dirname (t.disk.resolve input) in
      let (result, ends, turns) =
        climb_lem (suc (utf16_length folder)) input folder shorter (omega arith) in
      subst (λ (o : Option (Outcome Package)). Climbs input folder (reached o)) (sym ends) turns
