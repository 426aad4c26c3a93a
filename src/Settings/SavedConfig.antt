-- ===== src/Settings/SavedConfig.antt =====
-- web/src/pages/Settings.tsx: what `RawConfigEditor` saves.
use sentry_usb.Base.{
  ◌≡◌, refl, Bool, true, false, ◌&&◌, Option, none, some, List, [], ◌∷◌, String, str_eq, eq_iff,
  if◌then◌else◌, arith, Bool-cases, inl, inr, subst,
}
use sentry_usb.Base.Text.{trim, is_empty}
use sentry_usb.Base.Dict.{get, put, get-put}
use sentry_usb.Settings.RawConfig.{Entry, Editor, keep_active, config_data, save_begin, add_entry}

abbrev pub absent : Option Entry → Bool
absent none = true
absent (some e) = false

-- no key is there twice, as in an object
abbrev pub distinct_keys : List (String × Entry) → Bool
distinct_keys [] = true
distinct_keys ((key, e) ∷ es) = absent (get key es) && distinct_keys es

-- what is to be saved for a key: the value of its entry if it is active
abbrev pub active_value : Option Entry → Option String → Option String
active_value none old = old
active_value (some e) old = if e.active then some e.value else old

get-keep_active :
    (k key : String) (e : Entry) (w : List (String × String))
    → get k (keep_active key e w)
      ≡ (if str_eq key k then active_value (some e) (get k w) else get k w)
get-keep_active k key e w = elim (Bool-cases e.active) [
  | inl active ↦ rw (active, get-put key k e.value w) refl
  | inr inactive ↦ rw inactive (ground arith)
]

none_of : (o : Option Entry) → absent o ≡ true → o ≡ none
none_of none h = refl
none_of (some e) h = ground (arith, h)

absent_same :
    (k key : String) (es : List (String × Entry))
    → key ≡ k
    → absent (get key es) ≡ true
    → absent (get k es) ≡ true
absent_same k key es e h = subst (λ j. absent (get j es) ≡ true) e h

config_data-get :
    (k : String) (es : List (String × Entry)) (w : List (String × String))
    → distinct_keys es ≡ true
    → get k (config_data es w) ≡ active_value (get k es) (get k w)
unfolding config_data get
config_data-get k [] w h = refl
config_data-get k ((key, e) ∷ es) w h = elim (Bool-cases (str_eq key k)) [
  | inl same ↦
      let first = get-keep_active k key e w in
      let gone : get k es ≡ none =
        none_of (get k es) (absent_same k key es ((eq_iff key k).0 same) (ground (arith, h))) in
      let rest = config_data-get k es (keep_active key e w) (ground (arith, h)) in
      rw (same, rest, gone, first, same) refl
  | inr other ↦
      let first = get-keep_active k key e w in
      let rest = config_data-get k es (keep_active key e w) (ground (arith, h)) in
      rw (other, rest, first, other) refl
]

put-absent :
    (k j : String) (e : Entry) (es : List (String × Entry))
    → str_eq k j ≡ false
    → absent (get j (put k e es)) ≡ absent (get j es)
put-absent k j e es h = rw (get-put k j e es, h) refl

put-distinct :
    (k : String) (e : Entry) (es : List (String × Entry))
    → distinct_keys es ≡ true
    → distinct_keys (put k e es) ≡ true
unfolding put get
put-distinct k e [] h = refl
put-distinct k e ((key, d) ∷ es) h = elim (Bool-cases (str_eq key k)) [
  | inl same ↦
      let first : absent (get k es) ≡ true =
        absent_same k key es ((eq_iff key k).0 same) (ground (arith, h)) in
      rw same (ground (arith, h, first))
  | inr other ↦
      let different : str_eq k key ≡ false = ground (arith, other, eq_iff k key, eq_iff key k) in
      rw other (ground (arith, h, put-absent k key e es different, put-distinct k e es))
]

-- If no key is there twice: what is saved for a key is the value of its entry if it is active, and
-- nothing if it is not or if there is no entry. After an entry with a key is added, its value is
-- saved under the trimmed key, and no key is there twice.
pub save-add_entry :
    (k : String) (s : Editor)
    → distinct_keys s.entries ≡ true
    → is_empty (trim s.new_key) ≡ false
    → (get k (save_begin s).1 ≡ active_value (get k s.entries) none)
      × (get (trim s.new_key) (save_begin (add_entry s)).1 ≡ some s.new_val)
      × (distinct_keys (add_entry s).entries ≡ true)
unfolding save_begin add_entry get
save-add_entry k s h b =
    let new : Entry = record { value = s.new_val; active = true } in
    let distinct = put-distinct (trim s.new_key) new s.entries h in
    let added = config_data-get (trim s.new_key) (put (trim s.new_key) new s.entries) [] distinct in
    let same : str_eq (trim s.new_key) (trim s.new_key) ≡ true =
      (eq_iff (trim s.new_key) (trim s.new_key)).1 refl in
    rw b (
      config_data-get k s.entries [] h,
      rw (added, get-put (trim s.new_key) (trim s.new_key) new s.entries, same) refl,
      distinct,
    )
