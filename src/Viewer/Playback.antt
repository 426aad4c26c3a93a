-- ===== src/Viewer/Playback.antt =====
-- web/src/pages/Viewer.tsx: playback of a clip as a row of segments. Times are natural numbers of
-- milliseconds, and the state holds what the refs of the component mirror.
use sentry_usb.Base.{
  ℕ, zero, suc, ◌+◌, ◌-◌, Bool, true, false, not, Option, none, some, List, [], ◌∷◌, leb, ltb, ◌==◌,
  if◌then◌else◌, length, take, min,
}
use sentry_usb.Base.Int.{ℤ, pos, negsuc, ◌+ℤ◌, pos_part, minℤ, maxℤ}

pub record Player : Type 0 where
  pub segment_durations : List ℕ
  pub current_set_idx : ℕ
  pub playing : Bool
  pub pending_seek : Option ℕ
  -- the time within the segment, and within the whole clip, as the refs have it
  pub current_time : ℕ
  pub global_time : ℕ
  -- the time that is shown
  pub shown_time : ℕ
  pub focused_camera : Bool
  pub fullscreen : Bool

-- `segmentDurations.reduce((a, b) => a + b, 0)`
abbrev pub total : List ℕ → ℕ
total [] = 0
total (d ∷ ds) = d + total ds

abbrev pub total_duration : Player → ℕ
total_duration p = total p.segment_durations

abbrev pub prior_segments_time : Player → ℕ
prior_segments_time p = total (take p.current_set_idx p.segment_durations)

-- `new Array(clipSets.length).fill(60)`, in milliseconds
unfoldable pub default_durations : ℕ → List ℕ
default_durations zero = []
default_durations (suc n) = 60000 ∷ default_durations n

-- the effect on the selected clip, with the number of its segments
unfoldable pub select_clip : ℕ → Player → Player
unfolding default_durations
select_clip segments p = record p {
  segment_durations = default_durations segments;
  current_set_idx = 0;
  playing = false;
  focused_camera = false;
  pending_seek = none;
  current_time = 0;
  global_time = 0;
  shown_time = 0;
}

-- A probe reads the duration of a segment.
abbrev pub set_at : List ℕ → ℕ → ℕ → List ℕ
set_at [] i v = []
set_at (x ∷ xs) zero v = v ∷ xs
set_at (x ∷ xs) (suc i) v = x ∷ set_at xs i v

unfoldable pub on_metadata : ℕ → ℕ → Player → Player
on_metadata i duration p = record p { segment_durations = set_at p.segment_durations i duration }

-- `tick` of the animation loop, at a time of the master video; `due`: the interval of the user
-- interface is over.
unfoldable pub tick : ℕ → Bool → Player → Player
tick time due p =
    if p.playing
    then record p {
      current_time = time;
      global_time = prior_segments_time p + time;
      shown_time = if due then time else p.shown_time;
    }
    else p

unfoldable pub handle_video_ended : Player → Player
handle_video_ended p =
    if ltb (suc p.current_set_idx) (length p.segment_durations)
    then record p { current_set_idx = suc p.current_set_idx }
    else record p { playing = false }

unfoldable pub sync_videos : ℕ → Player → Player
sync_videos time p = if p.playing then record p { current_time = time } else record p {
  current_time = time;
  global_time = prior_segments_time p + time;
  shown_time = time;
}

unfoldable pub toggle_play : Player → Player
toggle_play p = record p { playing = not p.playing }

-- The loop of `seekToGlobal`: the segment and the offset in it. The last segment takes what is
-- left; 0.05 s are 50 ms.
unfoldable pub find_segment : ℕ → ℕ → List ℕ → Option (ℕ × ℕ)
find_segment i remaining [] = none
find_segment i remaining (d ∷ []) = some (i, min remaining d)
find_segment i remaining (d ∷ e ∷ ds) =
    let rest = find_segment (suc i) (remaining - d) (e ∷ ds) in
    if leb remaining (d + 50) then some (i, min remaining d) else rest

abbrev pub clamp_global : ℤ → ℕ → ℕ
clamp_global t total = pos_part (maxℤ (pos 0) (minℤ t (pos total)))

unfoldable pub seek_to_global : ℤ → Player → Player
unfolding find_segment sync_videos
seek_to_global t p = elim (find_segment 0 (clamp_global t (total_duration p)) p.segment_durations) [
  | none ↦ p
  | some (i, offset) ↦
      if i == p.current_set_idx
      then sync_videos offset p
      else record p { pending_seek = some offset; current_set_idx = i }
]

unfoldable pub skip : ℤ → Player → Player
unfolding seek_to_global
skip seconds p = seek_to_global (pos p.global_time +ℤ seconds) p

-- The keys: `editable` says that the event's target is an input.
pub data Key : Type 0 where
  space arrow_left arrow_right f_key escape other_key : Key

unfoldable pub on_key : Bool → Bool → Key → Player → Player
unfolding toggle_play skip
on_key true shift k p = p
on_key false shift space p = toggle_play p
on_key false shift arrow_left p = skip (if shift then negsuc 14999 else negsuc 4999) p
on_key false shift arrow_right p = skip (if shift then pos 15000 else pos 5000) p
on_key false shift f_key p = record p { fullscreen = not p.fullscreen }
on_key false shift escape p = if p.focused_camera then record p { focused_camera = false } else p
on_key false shift other_key p = p
