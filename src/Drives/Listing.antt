-- ===== src/Drives/Listing.antt =====
-- web/src/pages/Drives.tsx: the list of the drives: its filters, how much of it is shown, its sums,
-- and the label of a drive. Dates are texts; `format_date` is the browser's.
use sentry_usb.Base.{
  ℕ, ◌+◌, Bool, ◌&&◌, ◌||◌, List, [], ◌∷◌, String, str_eq, if◌then◌else◌, leb, ltb, filter_by, any,
  take,
}
use sentry_usb.Base.Text.{includes, is_empty}

pub record DriveSummary : Type 0 where
  pub date : String
  pub tags : List String
  pub distance_km : ℕ
  pub distance_mi : ℕ
  pub duration_ms : ℕ

pub record Listing : Type 0 where
  pub drives : List DriveSummary
  pub search : String
  pub tag_filter : String
  pub visible_count : ℕ

-- the effects of a new search text and of the end of the list coming into view
unfoldable pub set_search : String → Listing → Listing
set_search text s =
    if str_eq text s.search then s else record s { search = text; visible_count = 30 }

unfoldable pub show_more : Listing → Listing
show_more s = record s { visible_count = s.visible_count + 30 }

module _ (to_lower_case format_date : String → String) where
  unfoldable pub matches : Listing → DriveSummary → Bool
  unfolding includes
  matches s d =
      let q = to_lower_case s.search in
      let match_date =
        includes s.search d.date || includes q (to_lower_case (format_date d.date)) in
      let match_tag = any (λ t. includes q (to_lower_case t)) d.tags in
      (is_empty s.tag_filter || any (λ t. str_eq t s.tag_filter) d.tags)
      && (is_empty s.search || match_date || match_tag)

  unfoldable pub filtered : Listing → List DriveSummary
  unfolding matches
  filtered s = filter_by (matches s) s.drives

  unfoldable pub visible : Listing → List DriveSummary
  unfolding filtered
  visible s = take s.visible_count (filtered s)

-- the sums over the drives that are left by the filters
pub record Sums : Type 0 where
  pub count : ℕ
  pub dist_km : ℕ
  pub dist_mi : ℕ
  pub dur_ms : ℕ

unfoldable pub add_drives : Sums → List DriveSummary → Sums
add_drives acc [] = acc
add_drives acc (d ∷ ds) =
    add_drives
      (record {
        count = acc.count + 1;
        dist_km = acc.dist_km + d.distance_km;
        dist_mi = acc.dist_mi + d.distance_mi;
        dur_ms = acc.dur_ms + d.duration_ms;
      })
      ds

-- the shares of the modes of a drive
pub record Shares : Type 0 where
  pub fsd_percent : ℕ
  pub autosteer_percent : ℕ
  pub tacc_percent : ℕ

unfoldable pub assisted_mode_label : Shares → String
assisted_mode_label d =
    if leb d.autosteer_percent d.fsd_percent
      && leb d.tacc_percent d.fsd_percent
      && ltb 0 d.fsd_percent
    then "FSD"
    else if leb d.fsd_percent d.autosteer_percent
        && leb d.tacc_percent d.autosteer_percent
        && ltb 0 d.autosteer_percent
    then "Autopilot"
    else if ltb 0 d.tacc_percent
    then "TACC"
    else ""
