-- ===== src/Bento/Mode.antt =====
-- tui/bento/mode.go and tui/bento/override.go: the layout tier.
use webox.Prelude.{ℕ, ◌&&◌, ◌||◌, [], Option, none, some, if◌then◌else◌, ◌==◌, ◌+◌, leb, map}
use webox.Prelude.Int.{ℤ, pos, leb_ℤ, ltb_ℤ}
use webox.Prelude.Text.{Text, codes, text_eq, trim_space}

pub data Mode : Type 0 where
  tiny standard ultra ultra_plus : Mode

abbrev pub standard_min_width : ℤ
standard_min_width = pos 70

abbrev pub standard_min_height : ℤ
standard_min_height = pos 22

abbrev pub ultra_min_width : ℤ
ultra_min_width = pos 120

abbrev pub ultra_min_height : ℤ
ultra_min_height = pos 35

abbrev pub ultra_plus_min_width : ℤ
ultra_plus_min_width = pos 160

abbrev pub ultra_plus_min_height : ℤ
ultra_plus_min_height = pos 45

unfoldable pub detect_mode : ℤ → ℤ → Mode
detect_mode width height =
    if leb_ℤ width (pos 0) || leb_ℤ height (pos 0)
    then standard
    else if ltb_ℤ width standard_min_width || ltb_ℤ height standard_min_height
    then tiny
    else if leb_ℤ ultra_plus_min_width width && leb_ℤ ultra_plus_min_height height
    then ultra_plus
    else if leb_ℤ ultra_min_width width && leb_ℤ ultra_min_height height
    then ultra
    else standard

-- strings.ToLower: on ASCII letters, and on the one letter beyond ASCII whose small letter is ASCII
-- and stands in a word below; what it makes of other letters differs from those words either way.
abbrev to_lower : ℕ → ℕ
to_lower c = if leb b'A' c && leb c b'Z' then c + 32 else if c == 0x130 then b'i' else c

-- ParseLayoutOverride: none where its boolean is false.
unfoldable pub parse_layout_override : Text → Option Mode
parse_layout_override raw =
    let word = map to_lower (trim_space raw) in
    if text_eq word [] || text_eq word (codes "auto")
    then none
    else if text_eq word (codes "tiny")
    then some tiny
    else if text_eq word (codes "standard")
    then some standard
    else if text_eq word (codes "ultra")
    then some ultra
    else if text_eq word (codes "ultraplus")
        || text_eq word (codes "ultra+")
        || text_eq word (codes "plus")
    then some ultra_plus
    else none

unfoldable pub resolve : ℤ → ℤ → Text → Mode
unfolding parse_layout_override detect_mode
resolve width height raw = elim (parse_layout_override raw) [
  | some mode ↦ mode
  | none ↦ detect_mode width height
]
