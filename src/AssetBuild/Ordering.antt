-- ===== src/AssetBuild/Ordering.antt =====
-- The assets of a manifest, in the order of their names.
use kestrel_feature_mcp.Prelude.{
  String, Bool, true, false, ◌≡◌, refl, ◌∙◌, ◌||◌, List, [], ◌∷◌, includes, keys, ◌==◌, All, arith,
  if◌then◌else◌,
}
use kestrel_feature_mcp.Assets.{Bytes}
use kestrel_feature_mcp.NoticeFiles.{Disk, insert_entry, sort_entries}

-- The order of entries does not change which there are.
module _ (d : Disk) where
  pub sorted_all :
      (P : String × Bytes → Type 0) (es : List (String × Bytes))
      → All P es
      → All P (sort_entries d es)
  sorted_all P [] h = tt
  sorted_all P (e ∷ es) h = inserted (sort_entries d es) (sorted_all P es h.1)
    where
      inserted : (fs : List (String × Bytes)) → All P fs → All P (insert_entry d e fs)
      inserted [] g = (h.0, tt)
      inserted (f ∷ fs) g = by_order (d.locale_leb e.0 f.0) (inserted fs g.1)
        where
          by_order :
              (b : Bool)
              → All P (insert_entry d e fs)
              → All P (if b then e ∷ f ∷ fs else f ∷ insert_entry d e fs)
          by_order true r = (h.0, g)
          by_order false r = (g.0, r)

  pub sorted_keys :
      (k : String) (es : List (String × Bytes))
      → includes (keys (sort_entries d es)) k ≡ includes (keys es) k
  sorted_keys k [] = refl
  sorted_keys k ((j, v) ∷ es) = inserted (sort_entries d es) ∙ rw (sorted_keys k es) refl
    where
      inserted :
          (fs : List (String × Bytes))
          → includes (keys (insert_entry d (j, v) fs)) k ≡ (j == k || includes (keys fs) k)
      inserted [] = refl
      inserted ((i, w) ∷ fs) = let rest = inserted fs in ground arith
