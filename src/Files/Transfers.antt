-- ===== src/Files/Transfers.antt =====
-- web/src/pages/Files.tsx: the progress of the uploads.
use sentry_usb.Base.{
  ℕ, zero, suc, Bool, true, false, List, [], ◌∷◌, map, String, leb, if◌then◌else◌,
}

pub record UploadProgress : Type 0 where
  pub file_name : String
  pub loaded : ℕ
  pub total : ℕ
  pub done : Bool
  pub error : Bool

unfoldable pub initial : String × ℕ → UploadProgress
initial (name, size) = record {
  file_name = name;
  loaded = 0;
  total = size;
  done = false;
  error = false;
}

unfoldable pub start_uploads : List (String × ℕ) → List UploadProgress
unfolding initial
start_uploads files = map initial files

-- `prev.map((u, i) => i === index ? change(u) : u)`
abbrev pub map_at :
    ℕ → (UploadProgress → UploadProgress) → List UploadProgress → List UploadProgress
map_at index change [] = []
map_at zero change (u ∷ us) = change u ∷ us
map_at (suc index) change (u ∷ us) = u ∷ map_at index change us

unfoldable pub on_progress : Bool → ℕ → ℕ → ℕ → List UploadProgress → List UploadProgress
on_progress length_computable index loaded total us =
    if length_computable
    then map_at index (λ u. record u { loaded = loaded; total = total }) us
    else us

unfoldable pub on_load : ℕ → ℕ → List UploadProgress → List UploadProgress
on_load index status us =
    map_at index (λ u. record u { done = true; loaded = u.total; error = leb 400 status }) us

unfoldable pub on_error : ℕ → List UploadProgress → List UploadProgress
on_error index us = map_at index (λ u. record u { done = true; error = true }) us
