-- ===== src/Viewer/Examples.antt =====
-- web/src/pages/Viewer.tsx: a clip of three segments, and two categories of clips.
use sentry_usb.Base.{
  ℕ, ◌+◌, ◌≤◌, ◌<◌, ◌≡◌, ◌≢◌, ◌⊎◌, refl, true, false, none, some, List, [], ◌∷◌, String, length,
  take, get_or,
}
use sentry_usb.Base.Int.{pos, minℤ, maxℤ, ◌+ℤ◌}
use sentry_usb.Viewer.Playback.{
  Player, total, total_duration, clamp_global, seek_to_global, sync_videos, on_key, arrow_right,
}
use sentry_usb.Viewer.Seeking.{seek_to_global-place}
use sentry_usb.Viewer.Library.{ClipEntry, ClipGroup, Library, mount}

abbrev clip : Player
clip = record {
  segment_durations = 60000 ∷ 59000 ∷ 30000 ∷ [];
  current_set_idx = 0;
  playing = false;
  pending_seek = none;
  current_time = 58000;
  global_time = 58000;
  shown_time = 58000;
  focused_camera = false;
  fullscreen = false;
}

skipped :
    ((on_key false false arrow_right clip).current_set_idx ≡ 1)
    × ((on_key false false arrow_right clip).pending_seek ≡ some 3000)
unfolding on_key minℤ maxℤ ◌+ℤ◌
skipped = (refl, refl)

seek_to_global-place_example :
    (i : ℕ) × (offset : ℕ) × (i < length clip.segment_durations)
    × (offset ≤ get_or clip.segment_durations i 0)
    × (total (take i clip.segment_durations) + offset
        ≤ clamp_global (pos 500000) (total_duration clip))
    × (clamp_global (pos 500000) (total_duration clip)
        ≤ total (take i clip.segment_durations) + offset + 50)
    × (((i ≡ clip.current_set_idx) × (seek_to_global (pos 500000) clip ≡ sync_videos offset clip))
        ⊎ ((i ≢ clip.current_set_idx)
            × (seek_to_global (pos 500000) clip
                ≡ record clip { pending_seek = some offset; current_set_idx = i })))
seek_to_global-place_example = seek_to_global-place (pos 500000) clip (λ e. cc)

abbrev entry : String → ClipEntry
entry d = record { date = d; path = d; files = [] }

abbrev page : List ClipGroup
page = record { name = "RecentClips"; clips = entry "b" ∷ []; has_more = false } ∷ []

abbrev shown : Library
shown = record mount {
  groups = record { name = "RecentClips"; clips = entry "c" ∷ []; has_more = true } ∷ [];
}
