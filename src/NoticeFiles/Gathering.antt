-- ===== src/NoticeFiles/Gathering.antt =====
-- Each package of an input's source map is gathered, with the input.
use kestrel_feature_mcp.Prelude.{
  set_item, String, Bool, true, false, ◌≡◌, refl, sym, ◌∙◌, inl, inr, ◌&&◌, ◌||◌, List, [], ◌∷◌,
  includes, is_empty, ◌==◌, eq_iff, eq_refl, arith, Bool-cases, Outcome, Exception, ok, throw,
  ◌>>=◌, >>=-eq-ok, require->>=, ok-injective, if◌then◌else◌,
}
use mathlib.Core.Path.{subst}
use kestrel_feature_mcp.Json.{◌<>◌}
use kestrel_feature_mcp.Value.{Value}
use kestrel_feature_mcp.Assets.{Bytes}
use kestrel_feature_mcp.Notices.References.{includes-add_once}
use kestrel_feature_mcp.NoticeFiles.{
  Disk, Gathered, has_known, add_input, add_identities, read_source_map, add_source_map, visit,
  gather, insert_entry, sort_entries,
}

-- The input is one of those that embed the package.
abbrev pub has_input : String → String → List (String × List String) → Bool
has_input key input [] = false
has_input key input ((k, inputs) ∷ refs) =
    (k == key && includes inputs input) || has_input key input refs

add_input_there :
    (key input : String) (refs : List (String × List String))
    → has_input key input (add_input key input refs) ≡ true
add_input_there key input [] = ground (arith, eq_refl key, eq_refl input)
add_input_there key input ((k, inputs) ∷ refs) =
    let rest = add_input_there key input refs in
    ground (arith, includes-add_once input input inputs, eq_refl input)

add_input_keeps :
    (key input k i : String) (refs : List (String × List String))
    → has_input k i refs ≡ true
    → has_input k i (add_input key input refs) ≡ true
add_input_keeps key input k i [] h = cc
add_input_keeps key input k i ((j, inputs) ∷ refs) h = elim (Bool-cases (has_input k i refs)) [
  | inl e ↦
      (let rest = add_input_keeps key input k i refs e in
        ground (arith, includes-add_once input i inputs))
  | inr e ↦ ground (arith, includes-add_once input i inputs)
]

-- The identities of an input join those of before.
add_identities_lem :
    (known : List (String × Value)) (input : String) (keys : List String)
    (refs after : List (String × List String))
    → add_identities known input keys refs ≡ ok after
    → ((k i : String) → has_input k i refs ≡ true → has_input k i after ≡ true)
      × ((k : String) → includes keys k ≡ true → has_input k input after ≡ true)
unfolding add_identities
add_identities_lem known input [] refs after h = (
  λ k i there.
      subst (λ (r : List (String × List String)). has_input k i r ≡ true) (ok-injective h) there,
  λ k none_there. cc,
)
add_identities_lem known input (key ∷ keys) refs after h =
    let (present, rest) = require->>= (has_known key known) _ _ h in
    let (kept, added) = add_identities_lem known input keys (add_input key input refs) after rest in
    (
      λ k i there. kept k i (add_input_keeps key input k i refs there),
      λ k there. elim (Bool-cases (key == k)) [
        | inl same ↦
            subst (λ (j : String). has_input j input after ≡ true) ((eq_iff key k).0 same)
              (kept key input (add_input_there key input refs))
        | inr other ↦ added k (ground arith)
      ],
    )

module _ (d : Disk) where
  abbrev pub Keeps : Gathered → Gathered → Type 0
  Keeps g next =
      (k i : String) → has_input k i g.referenced ≡ true → has_input k i next.referenced ≡ true

  -- The packages of a source map are there, with the input.
  abbrev pub Holds : String → Gathered → Bytes → Type 0
  Holds input g bytes =
      (ids : List String) × (read_source_map d bytes ≡ ok ids)
      × ((k : String) → includes ids k ≡ true → has_input k input g.referenced ≡ true)

  add_source_map_lem :
      (known : List (String × Value)) (input : String) (g next : Gathered) (bytes : Bytes)
      → add_source_map d known input g bytes ≡ ok next
      → Keeps g next × Holds input next bytes
  unfolding add_source_map
  add_source_map_lem known input g next bytes h =
      let (ids, read, h1) = >>=-eq-ok (read_source_map d bytes) _ h in by_ids ids read h1
    where
      by_ids :
          (ids : List String)
          → read_source_map d bytes ≡ ok ids
          → (if is_empty ids
              then ok g
              else add_identities known input ids g.referenced >>= λ referenced. ok (record {
                referenced = referenced;
                source_maps = set_item (input <> ".map") (d.sha256 bytes) g.source_maps;
              }))
            ≡ ok next
          → Keeps g next × Holds input next bytes
      by_ids [] read h = (
        λ k i there.
            subst (λ (g : Gathered). has_input k i g.referenced ≡ true) (ok-injective h) there,
        ([], read, λ k none_there. cc),
      )
      by_ids (id ∷ ids) read h =
          let (refs, added, made) =
            >>=-eq-ok (add_identities known input (id ∷ ids) g.referenced) _ h in
          let (kept, there) = add_identities_lem known input (id ∷ ids) g.referenced refs added in
          subst (λ (n : Gathered). Keeps g n × Holds input n bytes) (ok-injective made)
            (kept, (id ∷ ids, read, there))

  visit_lem :
      (known : List (String × Value)) (input : String) (g next : Gathered)
      → visit d known input g ≡ ok next
      → Keeps g next
        × ((bytes : Bytes)
            → d.read (d.resolve (input <> ".map")) ≡ ok bytes
            → Holds input next bytes)
  unfolding visit
  visit_lem known input g next h = by_file (d.read (d.resolve (input <> ".map"))) refl h
    where
      by_missing :
          (e : Exception) (b : Bool) → (if b then ok g else throw e) ≡ ok next → Keeps g next
      by_missing e true h = λ k i there.
          subst (λ (g : Gathered). has_input k i g.referenced ≡ true) (ok-injective h) there
      by_missing e false h = cc

      by_file :
          (file : Outcome Bytes)
          → d.read (d.resolve (input <> ".map")) ≡ file
          → elim file [
            | ok bytes ↦ add_source_map d known input g bytes
            | throw e ↦ if d.is_missing e then ok g else throw e
          ]
            ≡ ok next
          → Keeps g next
            × ((bytes : Bytes)
                → d.read (d.resolve (input <> ".map")) ≡ ok bytes
                → Holds input next bytes)
      by_file (ok found) f h =
          let (kept, held) = add_source_map_lem known input g next found h in
          (
            kept,
            λ bytes r. subst (λ (bs : Bytes). Holds input next bs) (ok-injective (sym f ∙ r)) held,
          )
      by_file (throw e) f h =
          (by_missing e (d.is_missing e) h, λ bytes r. (let clash = sym f ∙ r in cc))

  pub gather_lem :
      (known : List (String × Value)) (inputs : List String) (g after : Gathered)
      → gather d known inputs g ≡ ok after
      → Keeps g after
        × ((input : String) (bytes : Bytes)
            → includes inputs input ≡ true
            → d.read (d.resolve (input <> ".map")) ≡ ok bytes
            → Holds input after bytes)
  unfolding gather
  gather_lem known [] g after h = (
    λ k i there. subst (λ (g : Gathered). has_input k i g.referenced ≡ true) (ok-injective h) there,
    λ input bytes none_there r. cc,
  )
  gather_lem known (input ∷ inputs) g after h =
      let (next, visited, h1) = >>=-eq-ok (visit d known input g) _ h in
      let (kept, held) = visit_lem known input g next visited in
      let (kept_after, rest) = gather_lem known inputs next after h1 in
      (
        λ k i there. kept_after k i (kept k i there),
        λ other bytes there r. elim (Bool-cases (input == other)) [
          | inl same ↦
              (let e = (eq_iff input other).0 same in
                let r' : d.read (d.resolve (input <> ".map")) ≡ ok bytes = rw e r in
                let (ids, read, all_there) = held bytes r' in
                (
                  ids,
                  read,
                  λ k m.
                      subst (λ (i : String). has_input k i after.referenced ≡ true) e
                        (kept_after k input (all_there k m)),
                ))
          | inr different ↦ rest other bytes (ground arith) r
        ],
      )

  pub sort_entries_lem :
      (k i : String) (refs : List (String × List String))
      → has_input k i (sort_entries d refs) ≡ has_input k i refs
  sort_entries_lem k i [] = refl
  sort_entries_lem k i (e ∷ refs) =
      inserted e (sort_entries d refs) ∙ rw (sort_entries_lem k i refs) refl
    where
      inserted :
          (e : String × List String) (refs : List (String × List String))
          → has_input k i (insert_entry d e refs) ≡ has_input k i (e ∷ refs)
      inserted e [] = refl
      inserted (j, js) ((l, ls) ∷ refs) = let rest = inserted (j, js) refs in ground arith
