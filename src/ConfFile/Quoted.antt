-- ===== src/ConfFile/Quoted.antt =====
-- web/src/components/setup/steps/WelcomeStep.tsx: a quoted value is read back, and a line that ends
-- with a carriage return is not read at all.
use sentry_usb.Base.{
  ℕ, ◌≤◌, ◌≡◌, refl, ap, ◌∙◌, Bool, true, false, ◌&&◌, none, some, List, [], ◌∷◌, String, arith,
}
use sentry_usb.Base.Dict.{put}
use sentry_usb.Base.Text.{is_empty, is_space, trim_start, trim_end, trim, utf16_length, concat}
use sentry_usb.ConfFile.{
  behind, is_key_start, is_key_char, take_key, on_one_line, match_value, with_key, match_key,
  match_gap, match_behind, match_export, last_is, drop_last, unquote, put_match, parse_lines,
}
use Prim.Native.Char.{code}
use Prim.Native.String.{[], ◌∷◌}

-- a key of the pattern
abbrev pub all_key_chars : String → Bool
all_key_chars [] = true
all_key_chars (c ∷ s) = is_key_char (code c) && all_key_chars s

abbrev pub is_key : String → Bool
is_key [] = false
is_key (c ∷ s) = is_key_start (code c) && all_key_chars s

-- the line `export KEY=rest`
unfoldable pub export_line : String → String → String
unfolding concat
export_line key rest = concat "export " (concat key (concat "=" rest))

take_key-concat :
    (key rest : String)
    → all_key_chars key ≡ true
    → take_key (concat key (concat "=" rest)) ≡ (key, concat "=" rest)
unfolding take_key concat
take_key-concat [] rest h = refl
take_key-concat (c ∷ key) rest h =
    let first : is_key_char (code c) ≡ true = ground (arith, h) in
    let others : all_key_chars key ≡ true = ground (arith, h) in
    rw first (ap (λ r. (c ∷ r.0, r.1)) (take_key-concat key rest others))

key_start-is_space : (c : ℕ) → is_key_start c ≡ true → is_space c ≡ false
unfolding is_space
key_start-is_space c h = ground (arith, h)

match_export-line :
    (key rest : String)
    → is_key key ≡ true
    → match_export (export_line key rest) ≡ with_key key (match_value (concat "=" rest))
unfolding match_export export_line concat behind match_behind match_gap match_key trim_start
    is_space
match_export-line [] rest h = ground (arith, h)
match_export-line (c ∷ key) rest h =
    let first : is_key_start (code c) ≡ true = ground (arith, h) in
    let others : all_key_chars key ≡ true = ground (arith, h) in
    rw (key_start-is_space (code c) first, first, match_key)
      (ap (λ r. with_key (c ∷ r.0) (match_value r.1)) (take_key-concat key rest others))

on_one_line-concat : (s t : String) → on_one_line (concat s t) ≡ on_one_line s && on_one_line t
unfolding on_one_line concat
on_one_line-concat [] t = refl
on_one_line-concat (c ∷ s) t = ground (arith, on_one_line-concat s t)

-- A value between single quotes keeps its ends when it is trimmed, and loses the quotes.
abbrev pub quoted : String → String
unfolding concat
quoted value = concat "'" (concat value "'")

concat_quote-is_empty : (s : String) → is_empty (concat s "'") ≡ false
unfolding concat
concat_quote-is_empty [] = refl
concat_quote-is_empty (c ∷ s) = refl

trim_end-quote : (s : String) → trim_end (concat s "'") ≡ concat s "'"
unfolding trim_end concat is_space
trim_end-quote [] = refl
trim_end-quote (c ∷ s) = ground (arith, trim_end-quote s, concat_quote-is_empty s)

trim-quoted : (value : String) → trim (quoted value) ≡ quoted value
unfolding trim quoted concat trim_start trim_end is_space
trim-quoted value = rw (trim_end-quote value) refl

last_is-quote : (s : String) → last_is 39 (concat s "'") ≡ true
unfolding concat
last_is-quote [] = refl
last_is-quote (c ∷ s) = ground (arith, last_is-quote s, concat_quote-is_empty s)

drop_last-quote : (s : String) → drop_last (concat s "'") ≡ s
unfolding concat
drop_last-quote [] = refl
drop_last-quote (c ∷ s) = ground (arith, drop_last-quote s, concat_quote-is_empty s)

quote_length : (s : String) → 1 ≤ utf16_length (concat s "'")
unfolding concat utf16_length
quote_length [] = ground arith
quote_length (c ∷ s) = ground (arith, quote_length s)

unquote-quoted : (value : String) → unquote (quoted value) ≡ value
unfolding unquote quoted concat utf16_length
unquote-quoted value = ground (
  arith,
  quote_length value,
  concat_quote-is_empty value,
  last_is-quote value,
  drop_last-quote value,
)

match_value-quoted :
    (value : String)
    → on_one_line value ≡ true
    → match_value (concat "=" (quoted value)) ≡ some (quoted value)
unfolding match_value on_one_line concat quoted
match_value-quoted value h = rw (on_one_line-concat value "'", h) refl

on_one_line-return : (s : String) → on_one_line (concat s "\r") ≡ false
unfolding concat on_one_line
on_one_line-return [] = refl
on_one_line-return (c ∷ s) = ground (arith, on_one_line-return s)

match_value-return : (rest : String) → match_value (concat "=" (concat rest "\r")) ≡ none
unfolding match_value concat
match_value-return rest = rw (on_one_line-return rest) refl

match_export-return :
    (key rest : String)
    → is_key key ≡ true
    → match_export (export_line key (concat rest "\r")) ≡ none
match_export-return key rest k =
    match_export-line key (concat rest "\r") k ∙ ap (with_key key) (match_value-return rest)

-- A line `export KEY='value'` of the file, with a key of the pattern and a value that has no line
-- terminator, gives the key that value, whatever it is otherwise. A line `export KEY=…` that ends
-- with a carriage return is passed over.
pub parse_lines-quoted :
    (key value : String) (lines : List String) (result : List (String × String))
    → is_key key ≡ true
    → on_one_line value ≡ true
    → (parse_lines (export_line key (quoted value) ∷ lines) result
        ≡ parse_lines lines (put key value result))
      × ((rest : String)
          → parse_lines (export_line key (concat rest "\r") ∷ lines) result
            ≡ parse_lines lines result)
unfolding parse_lines put_match
parse_lines-quoted key value lines result k h =
    let matched : match_export (export_line key (quoted value)) ≡ some (key, quoted value) =
      match_export-line key (quoted value) k ∙ ap (with_key key) (match_value-quoted value h) in
    let read : unquote (trim (quoted value)) ≡ value =
      ap unquote (trim-quoted value) ∙ unquote-quoted value in
    (
      ap (λ m. parse_lines lines (put_match m result)) matched
          ∙ ap (λ v. parse_lines lines (put key v result)) read,
      λ rest. ap (λ m. parse_lines lines (put_match m result)) (match_export-return key rest k),
    )
