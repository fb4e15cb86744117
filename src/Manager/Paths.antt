-- ===== src/Manager/Paths.antt =====
-- normalize_manifest_path of launcher/manager_model.cpp. A string is the list of its bytes.
pub mod Reference
pub mod Stable
mod Runs
use ffb_interceptor_visualiz.Common.{
  ℕ, zero, suc, ◌+◌, ◌-◌, ◌*◌, Bool, true, false, ◌&&◌, ◌||◌, not, List, [], ◌∷◌, ◌++◌, Option,
  none, some, leb, ltb, ◌==◌, if◌then◌else◌, length, get_or,
}
use ffb_interceptor_visualiz.Manager.Elevated.{Text, text_eq}

abbrev pub is_empty : Text → Bool
is_empty [] = true
is_empty (c ∷ cs) = false

-- back() is a given character.
unfoldable pub ends_in : (back : ℕ) → Text → Bool
ends_in back [] = false
ends_in back (c ∷ []) = c == back
ends_in back (c ∷ d ∷ cs) = ends_in back (d ∷ cs)

unfoldable pub contains : (character : ℕ) → Text → Bool
contains character [] = false
contains character (c ∷ cs) = let rest = contains character cs in c == character || rest

-- substr(0, find('.'))
unfoldable pub before_dot : Text → Text
before_dot [] = []
before_dot (c ∷ cs) = let rest = before_dot cs in if c == 46 then [] else c ∷ rest

-- pop_back() while back() is a space
unfoldable pub trim_spaces : Text → Text
trim_spaces [] = []
trim_spaces (c ∷ cs) =
    let rest = trim_spaces cs in if c == 32 && is_empty rest then [] else c ∷ rest

-- std::toupper of the C locale, for each character.
unfoldable pub to_upper : Text → Text
to_upper [] = []
to_upper (c ∷ cs) = let rest = to_upper cs in (if leb 97 c && leb c 122 then c - 32 else c) ∷ rest

unfoldable pub device_name : Text → Text
unfolding before_dot trim_spaces to_upper
device_name segment = to_upper (trim_spaces (before_dot segment))

-- COM1 to COM9 and LPT1 to LPT9
unfoldable pub numbered_device : Text → Bool
unfolding text_eq
numbered_device (a ∷ b ∷ c ∷ d ∷ []) =
    (text_eq (a ∷ b ∷ c ∷ []) (67 ∷ 79 ∷ 77 ∷ []) || text_eq (a ∷ b ∷ c ∷ []) (76 ∷ 80 ∷ 84 ∷ []))
    && leb 49 d
    && leb d 57
numbered_device other = false

-- CON, PRN, AUX, NUL, CONIN$, CONOUT$
unfoldable pub is_device : Text → Bool
unfolding text_eq numbered_device
is_device name =
    text_eq name (67 ∷ 79 ∷ 78 ∷ [])
    || text_eq name (80 ∷ 82 ∷ 78 ∷ [])
    || text_eq name (65 ∷ 85 ∷ 88 ∷ [])
    || text_eq name (78 ∷ 85 ∷ 76 ∷ [])
    || text_eq name (67 ∷ 79 ∷ 78 ∷ 73 ∷ 78 ∷ 36 ∷ [])
    || text_eq name (67 ∷ 79 ∷ 78 ∷ 79 ∷ 85 ∷ 84 ∷ 36 ∷ [])
    || numbered_device name

-- Control characters, those from 0x7f on, and < > " | ? *
unfoldable pub is_forbidden : ℕ → Bool
is_forbidden c =
    ltb c 32 || leb 127 c || c == 60 || c == 62 || c == 34 || c == 124 || c == 63 || c == 42

-- "." and ".."
unfoldable pub is_malformed : Text → Bool
unfolding text_eq ends_in
is_malformed segment =
    is_empty segment
    || ltb 255 (length segment)
    || text_eq segment (46 ∷ [])
    || text_eq segment (46 ∷ 46 ∷ [])
    || ends_in 46 segment
    || ends_in 32 segment

-- The loop that appends a segment.
unfoldable pub append_segment : (output segment : Text) → Option Text
unfolding is_forbidden
append_segment output [] = some output
append_segment output (c ∷ cs) =
    let rest = append_segment (output ++ c ∷ []) cs in if is_forbidden c then none else rest

unfoldable pub flush_segment : (output segment : Text) → Option Text
unfolding is_malformed is_device device_name append_segment
flush_segment output segment =
    if is_malformed segment
    then none
    else if is_device (device_name segment)
    then none
    else append_segment (if is_empty output then output else output ++ 92 ∷ []) segment

-- `/` and `\`
abbrev pub is_separator : ℕ → Bool
is_separator c = c == 47 || c == 92

-- `output` and `segment`, where no flush has failed.
abbrev pub Progress : Type 0
Progress = Option (Text × Text)

abbrev pub flushed : Option Text → Progress
flushed none = none
flushed (some output) = some (output, [])

-- One turn of the loop.
unfoldable pub advance : (character : ℕ) → Progress → Progress
unfolding flush_segment
advance character none = none
advance character (some (output, segment)) =
    if is_separator character
    then flushed (flush_segment output segment)
    else some (output, segment ++ character ∷ [])

abbrev pub finish : Progress → Option Text
finish none = none
finish (some (output, segment)) = flush_segment output segment

unfoldable pub normalize_from : Text → Progress → Option Text
unfolding advance
normalize_from [] p = finish p
normalize_from (c ∷ cs) p = normalize_from cs (advance c p)

-- The guards: `/` or `\` in front, or a `:` anywhere.
unfoldable pub is_refused : Text → Bool
unfolding contains
is_refused input =
    is_empty input
    || ltb 1024 (length input)
    || is_separator (get_or input 0 0)
    || contains 58 input

unfoldable pub normalize_manifest_path : Text → Option Text
unfolding normalize_from is_refused
normalize_manifest_path input =
    if is_refused input then none else normalize_from input (some ([], []))
