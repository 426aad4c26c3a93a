-- ===== src/Files/Sorting.antt =====
-- web/src/pages/Files.tsx: the order of the files of a folder. The comparison of texts by the
-- language of the browser and `sort` are the browser's; times are milliseconds.
use sentry_usb.Base.{ℕ, Bool, List, String, if◌then◌else◌, zero, suc}
use sentry_usb.Base.Int.{ℤ, pos, negsuc, sub_ℕ}
use sentry_usb.Base.Text.{includes}

pub record Sortable : Type 0 where
  pub name : String
  pub is_dir : Bool
  pub size : ℕ
  pub modified : ℕ

pub data SortOption : Type 0 where
  name_asc name_desc date_newest date_oldest size_largest size_smallest by_type : SortOption

abbrev pub negate : ℤ → ℤ
negate (pos zero) = pos zero
negate (pos (suc n)) = negsuc n
negate (negsuc n) = pos (suc n)

-- `a || b` on numbers
abbrev pub or_else : ℤ → ℤ → ℤ
or_else (pos zero) b = b
or_else (pos (suc n)) b = pos (suc n)
or_else (negsuc n) b = negsuc n

-- The comparison of names without case and accents, that of extensions, and the last part of a name
-- behind a dot, in lower case.
pub record Collator : Type 0 where
  pub compare_base : String → String → ℤ
  pub compare_plain : String → String → ℤ
  pub last_part_lower : String → String

module _ (collator : Collator) where
  abbrev extension : Sortable → String
  extension e = if includes "." e.name then collator.last_part_lower e.name else ""

  unfoldable pub compare_by : SortOption → Sortable → Sortable → ℤ
  unfolding includes
  compare_by name_asc a b = collator.compare_base a.name b.name
  compare_by name_desc a b = negate (collator.compare_base a.name b.name)
  compare_by date_newest a b =
      or_else (sub_ℕ b.modified a.modified) (negate (collator.compare_base a.name b.name))
  compare_by date_oldest a b =
      or_else (sub_ℕ a.modified b.modified) (collator.compare_base a.name b.name)
  compare_by size_largest a b = sub_ℕ b.size a.size
  compare_by size_smallest a b = sub_ℕ a.size b.size
  compare_by by_type a b =
      or_else (collator.compare_plain (extension a) (extension b))
        (collator.compare_base a.name b.name)

  -- the comparison that is passed to `sort`
  unfoldable pub compare_files : SortOption → Sortable → Sortable → ℤ
  unfolding compare_by
  compare_files option a b =
      if a.is_dir
      then if b.is_dir then compare_by option a b else negsuc 0
      else if b.is_dir
      then pos 1
      else compare_by option a b

  unfoldable pub sorted_files :
      ((Sortable → Sortable → ℤ) → List Sortable → List Sortable)
      → SortOption
      → List Sortable
      → List Sortable
  unfolding compare_files
  sorted_files sort option files = sort (compare_files option) files
