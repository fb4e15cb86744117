-- ===== src/Manager/Manifest.antt =====
-- parse_manifest_text of launcher/manager_model.cpp, without its error texts. `lower` and `upper`
-- are std::towlower and std::towupper.
pub mod Lines
pub mod Seen
use ffb_interceptor_visualiz.Common.{
  ℕ, zero, suc, ◌+◌, ◌*◌, Bool, true, false, ◌&&◌, ◌||◌, not, List, [], ◌∷◌, ◌++◌, map, Option,
  none, some, leb, ltb, ◌==◌, if◌then◌else◌, length, take, drop, get_or, all,
}
use ffb_interceptor_visualiz.Manager.Elevated.{Text, text_eq}
use ffb_interceptor_visualiz.Manager.Paths.{is_empty, normalize_manifest_path}

pub record ManifestEntry : Type 0 where
  pub relative_path : Text
  pub sha256 : Text

abbrev pub max_manifest_bytes : ℕ
max_manifest_bytes = 4 * 1024 * 1024

abbrev pub max_manifest_entries : ℕ
max_manifest_entries = 256

abbrev pub onto_first : ℕ → List Text → List Text
onto_first c [] = (c ∷ []) ∷ []
onto_first c (line ∷ lines) = (c ∷ line) ∷ lines

-- The lines that the loop takes: each up to its `\n` or the end of the text.
unfoldable pub lines_of : Text → List Text
lines_of [] = []
lines_of (c ∷ cs) = let rest = lines_of cs in if c == 10 then [] ∷ rest else onto_first c rest

-- One `\r` at the end is dropped.
unfoldable pub without_return : Text → Text
without_return [] = []
without_return (c ∷ []) = if c == 13 then [] else c ∷ []
without_return (c ∷ d ∷ cs) = c ∷ without_return (d ∷ cs)

abbrev pub is_hex_character : ℕ → Bool
is_hex_character c = leb 48 c && leb c 57 || leb 97 c && leb c 102 || leb 65 c && leb c 70

unfoldable pub is_entry_line : Text → Bool
is_entry_line line =
    not (ltb (length line) 67)
    && get_or line 64 0 == 32
    && get_or line 65 0 == 32
    && all is_hex_character (take 64 line)

-- seen.count(key) != 0
unfoldable pub is_seen : (key : Text) → List Text → Bool
is_seen key [] = false
is_seen key (k ∷ ks) = let rest = is_seen key ks in text_eq key k || rest

module _ (lower upper : ℕ → ℕ) where
  abbrev pub key_of : ManifestEntry → Text
  key_of entry = map lower entry.relative_path

  abbrev pub new_entry : (line path : Text) → ManifestEntry
  new_entry line path = record { relative_path = path; sha256 = map upper (take 64 line) }

  -- Behind the checks of a line. `seen` has the keys of the entries.
  abbrev pub add_entry :
      (line : Text) → Option Text → List ManifestEntry → Option (List ManifestEntry)
  add_entry line none entries = none
  add_entry line (some path) entries =
      if is_seen (map lower path) (map key_of entries)
        || not (ltb (length entries) max_manifest_entries)
      then none
      else some (entries ++ new_entry line path ∷ [])

  unfoldable pub parse_line : (line : Text) → List ManifestEntry → Option (List ManifestEntry)
  unfolding is_entry_line is_seen normalize_manifest_path
  parse_line line entries =
      if is_empty line
      then some entries
      else if not (is_entry_line line)
      then none
      else add_entry line (normalize_manifest_path (drop 66 line)) entries

  unfoldable pub parse_lines : List Text → Option (List ManifestEntry) → Option (List ManifestEntry)
  unfolding parse_line without_return
  parse_lines lines none = none
  parse_lines [] (some entries) = some entries
  parse_lines (line ∷ lines) (some entries) =
      parse_lines lines (parse_line (without_return line) entries)

  abbrev pub not_empty : Option (List ManifestEntry) → Option (List ManifestEntry)
  not_empty none = none
  not_empty (some []) = none
  not_empty (some (entry ∷ entries)) = some (entry ∷ entries)

  unfoldable pub parse_manifest_text : Text → Option (List ManifestEntry)
  unfolding parse_lines lines_of
  parse_manifest_text text =
      if is_empty text || ltb max_manifest_bytes (length text)
      then none
      else not_empty (parse_lines (lines_of text) (some []))
