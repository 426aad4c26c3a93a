-- ===== src/LockChime/Pages.antt =====
-- web/src/pages/LockChime.tsx: the pages of the library, and the rows of the grid that
-- `useFullRows` shows.
use sentry_usb.Base.{
  ℕ, zero, suc, ◌+◌, ◌-◌, ◌*◌, ◌/◌, ◌||◌, List, [], ◌∷◌, if◌then◌else◌, take, length, min, ltb,
  ◌==◌,
}
use sentry_usb.LockChime.Library.{Library, SoundEntry}

abbrev pub library_page_size : ℕ
library_page_size = 15

module _ {ℓ} {A : Type ℓ} where
  abbrev pub drop : ℕ → List A → List A
  drop zero xs = xs
  drop (suc n) [] = []
  drop (suc n) (x ∷ xs) = drop n xs

-- `Math.ceil(sounds.length / LIBRARY_PAGE_SIZE)`, and the page that is shown
unfoldable pub lib_total_pages : List SoundEntry → ℕ
lib_total_pages sounds = (length sounds + 14) / library_page_size

unfoldable pub safe_page : Library → ℕ
unfolding lib_total_pages
safe_page s = min s.lib_page (lib_total_pages s.listing.sounds)

-- the sounds of a page, which is at least 1
unfoldable pub sounds_of_page : ℕ → List SoundEntry → List SoundEntry
sounds_of_page page sounds = take library_page_size (drop ((page - 1) * library_page_size) sounds)

unfoldable pub page_sounds : Library → List SoundEntry
unfolding safe_page sounds_of_page
page_sounds s = sounds_of_page (safe_page s) s.listing.sounds

-- The buttons, and the turn of the page. They are there when there are sounds.
unfoldable pub previous_page : Library → Library
previous_page s = record s { lib_page = if ltb 1 s.lib_page then s.lib_page - 1 else 1 }

unfoldable pub next_page : Library → Library
unfolding lib_total_pages
next_page s = record s { lib_page = min (lib_total_pages s.listing.sounds) (s.lib_page + 1) }

-- `useFullRows`, with the number of columns
unfoldable pub full_rows {ℓ} : {A : Type ℓ} → ℕ → List A → List A
full_rows cols items =
    let count = (length items / cols) * cols in
    if cols == 0 || length items == 0
    then items
    else if ltb 0 count
    then take count items
    else items
