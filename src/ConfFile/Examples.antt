-- ===== src/ConfFile/Examples.antt =====
-- web/src/components/setup/steps/WelcomeStep.tsx: a file of a few lines.
use sentry_usb.Base.{◌≡◌, refl, [], ◌∷◌, String}
use sentry_usb.Base.Dict.{put}
use sentry_usb.Base.Text.{concat, trim, trim_start, trim_end, is_space, utf16_length}
use sentry_usb.ConfFile.{
  parse_conf_file, parse_lines, split_lines, match_export, match_gap, match_key, match_value,
  take_key, on_one_line, behind, match_behind, put_match, unquote,
}
use sentry_usb.ConfFile.Quoted.{export_line, quoted, parse_lines-quoted}

parsed :
    parse_conf_file " export  SSID='home'\n# note\nexport A=\"x\" \nexport B=$'y'\nexport C=z\r\n"
    ≡ ("SSID", "home") ∷ ("A", "x") ∷ ("B", "y") ∷ []
unfolding parse_conf_file parse_lines split_lines match_export match_gap match_key match_value
    take_key on_one_line behind match_behind put_match unquote trim trim_start trim_end is_space
    utf16_length put
parsed = refl

parse_lines-quoted_example :
    (parse_lines (export_line "SSID" (quoted " my net ") ∷ []) []
      ≡ parse_lines [] (put "SSID" " my net " []))
    × ((rest : String)
        → parse_lines (export_line "SSID" (concat rest "\r") ∷ []) [] ≡ parse_lines [] [])
unfolding on_one_line
parse_lines-quoted_example = parse_lines-quoted "SSID" " my net " [] [] refl refl
