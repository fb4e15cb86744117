-- ===== src/Manager/Manifest/Lines.antt =====
-- What parse_manifest_text of launcher/manager_model.cpp accepts.
use ffb_interceptor_visualiz.Common.{
  ℕ, ◌≤◌, ◌<◌, ◌≡◌, refl, sym, subst, ap, ◌∙◌, Bool, true, false, ◌||◌, not, List, [], ◌∷◌, ◌++◌,
  map, append-nil, append_assoc, Option, none, some, ltb, length, length-append, take, drop, all,
  All, arith, Bool-cases, inl, inr, ◌⊎◌,
}
use ffb_interceptor_visualiz.Manager.Elevated.{Text}
use ffb_interceptor_visualiz.Manager.Paths.{is_empty, normalize_manifest_path}
use ffb_interceptor_visualiz.Manager.Paths.Reference.{split, is_plain}
use ffb_interceptor_visualiz.Manager.Paths.Stable.{normalize_manifest_path-split}
use ffb_interceptor_visualiz.Manager.Manifest.{
  ManifestEntry, lines_of, without_return, is_entry_line, is_seen, key_of, new_entry, add_entry,
  parse_line, parse_lines, not_empty, parse_manifest_text, max_manifest_entries, max_manifest_bytes,
}

-- A path in the package: each of its segments can stand in one.
abbrev pub IsPackagePath : Text → Type 0
IsPackagePath path = (is_plain (split path).0 ≡ true) × (all is_plain (split path).1 ≡ true)

module _ (lower upper : ℕ → ℕ) where
  -- The line of an entry: 64 hexadecimal digits, two blanks, and a path, which the entry has in its
  -- normal form.
  pub record IsOf (entry : ManifestEntry) (line : Text) : Type 0 where
    pub form : is_entry_line line ≡ true
    pub digest : entry.sha256 ≡ map upper (take 64 line)
    pub path : normalize_manifest_path (drop 66 line) ≡ some entry.relative_path

  -- The entries are those of the lines that are not empty, in their order.
  pub data AreOf : List ManifestEntry → List Text → Type 0 where
    none_left : AreOf [] []
    blank :
        {entries : List ManifestEntry} {line : Text} {lines : List Text}
        → is_empty (without_return line) ≡ true
        → AreOf entries lines
        → AreOf entries (line ∷ lines)
    taken :
        {entries : List ManifestEntry} {lines : List Text} (entry : ManifestEntry) (line : Text)
        → IsOf entry (without_return line)
        → AreOf entries lines
        → AreOf (entry ∷ entries) (line ∷ lines)

  abbrev pub AreDistinct : (seen : List ManifestEntry) → List ManifestEntry → Type 0
  AreDistinct seen [] = Unit {0}
  AreDistinct seen (entry ∷ entries) =
      (is_seen (key_of lower upper entry) (map (key_of lower upper) seen) ≡ false)
      × AreDistinct (seen ++ entry ∷ []) entries

  -- The parsed rest of the lines, behind the entries so far.
  record Parsed (before : List ManifestEntry) (lines : List Text) (result : List ManifestEntry)
      : Type 0 where
    more : List ManifestEntry
    whole : result ≡ before ++ more
    of_lines : AreOf more lines
    distinct : AreDistinct before more
    count : length before ≤ max_manifest_entries → length result ≤ max_manifest_entries

  none_not_some : (r : List ManifestEntry) → none ≡ some r → ⊥
  none_not_some r e = cc

  some_inj : (a b : List ManifestEntry) → some a ≡ some b → a ≡ b
  some_inj a b e = cc

  parse_lines-none :
      (lines : List Text) (r : List ManifestEntry) → parse_lines lower upper lines none ≡ some r → ⊥
  unfolding parse_lines
  parse_lines-none [] r e = none_not_some r e
  parse_lines-none (line ∷ lines) r e = none_not_some r e

  -- A line that adds an entry.
  record Adds (line : Text) (before next : List ManifestEntry) : Type 0 where
    entry : ManifestEntry
    of_line : IsOf entry line
    fresh : is_seen (key_of lower upper entry) (map (key_of lower upper) before) ≡ false
    room : length before < max_manifest_entries
    appended : next ≡ before ++ entry ∷ []

  add_entry-Adds :
      (line : Text) (o : Option Text) (before next : List ManifestEntry)
      → is_entry_line line ≡ true
      → normalize_manifest_path (drop 66 line) ≡ o
      → add_entry lower upper line o before ≡ some next
      → Adds line before next
  add_entry-Adds line none before next form e h = absurd (none_not_some next h)
  add_entry-Adds line (some path) before next form e h =
      let seen = is_seen (map lower path) (map (key_of lower upper) before) in
      elim (Bool-cases (seen || not (ltb (length before) max_manifest_entries))) [
        | inl refused ↦ absurd (none_not_some next (rw refused at h))
        | inr accepted ↦ record {
          entry = new_entry lower upper line path;
          of_line = record { form = form; digest = refl; path = e };
          fresh = fresh seen (ltb (length before) max_manifest_entries) accepted;
          room = room accepted;
          appended = sym (some_inj _ _ (rw accepted at h));
        }
      ]
    where
      fresh : (a b : Bool) → (a || not b) ≡ false → a ≡ false
      fresh a b e = ground arith

      room :
          (is_seen (map lower path) (map (key_of lower upper) before)
              || not (ltb (length before) max_manifest_entries))
            ≡ false
          → length before < max_manifest_entries
      room e = ground arith

  parse_line-Adds :
      (line : Text) (before next : List ManifestEntry)
      → parse_line lower upper line before ≡ some next
      → ((is_empty line ≡ true) × (next ≡ before)) ⊎ Adds line before next
  unfolding parse_line
  parse_line-Adds line before next h = elim (Bool-cases (is_empty line)) [
    | inl empty ↦ inl (empty, sym (some_inj before next (rw empty at h)))
    | inr given ↦ elim (Bool-cases (is_entry_line line)) [
      | inr other ↦ absurd (none_not_some next (rw (given, other) at h))
      | inl form ↦ inr (
          add_entry-Adds line (normalize_manifest_path (drop 66 line)) before next form refl
            (rw (given, form) at h))
    ]
  ]

  parse_lines-Parsed :
      (lines : List Text) (before result : List ManifestEntry)
      → parse_lines lower upper lines (some before) ≡ some result
      → Parsed before lines result
  unfolding parse_lines
  parse_lines-Parsed [] before result h = record {
    more = [];
    whole = sym (some_inj before result h) ∙ sym (append-nil before);
    of_lines = none_left;
    distinct = tt;
    count = λ k.
        subst (λ (r : List ManifestEntry). length r ≤ max_manifest_entries)
          (some_inj before result h) k;
  }
  parse_lines-Parsed (line ∷ lines) before result h =
      behind (parse_line lower upper (without_return line) before) refl h (parse_lines-Parsed lines)
    where
      added :
          (next : List ManifestEntry)
          → Adds (without_return line) before next
          → Parsed next lines result
          → Parsed before (line ∷ lines) result
      added next a p = record {
        more = a.entry ∷ p.more;
        whole =
            p.whole
            ∙ ap (λ (r : List ManifestEntry). r ++ p.more) a.appended
            ∙ append_assoc before (a.entry ∷ []) p.more;
        of_lines = taken a.entry line a.of_line p.of_lines;
        distinct = (
          a.fresh,
          subst (λ (r : List ManifestEntry). AreDistinct r p.more) a.appended p.distinct,
        );
        count = λ k. p.count (
            subst (λ (r : List ManifestEntry). length r ≤ max_manifest_entries) (sym a.appended)
              (omega (arith, length-append before (a.entry ∷ []), a.room)));
      }

      behind :
          (o : Option (List ManifestEntry))
          → parse_line lower upper (without_return line) before ≡ o
          → parse_lines lower upper lines o ≡ some result
          → ((next r : List ManifestEntry)
              → parse_lines lower upper lines (some next) ≡ some r
              → Parsed next lines r)
          → Parsed before (line ∷ lines) result
      behind none e k ih = absurd (parse_lines-none lines result k)
      behind (some next) e k ih = elim (parse_line-Adds (without_return line) before next e) [
        | inl (empty, same) ↦
            let p =
              subst (λ (r : List ManifestEntry). Parsed r lines result) same (ih next result k) in
            record {
              more = p.more;
              whole = p.whole;
              of_lines = blank empty p.of_lines;
              distinct = p.distinct;
              count = p.count;
            }
        | inr a ↦ added next a (ih next result k)
      ]

  -- What a manifest that is accepted holds.
  pub record IsManifest (text : Text) (entries : List ManifestEntry) : Type 0 where
    pub given : is_empty text ≡ false
    pub of_lines : AreOf entries (lines_of text)
    pub distinct : AreDistinct [] entries
    pub in_package : All (λ (entry : ManifestEntry). IsPackagePath entry.relative_path) entries
    pub some_entry : 0 < length entries
    pub count : length entries ≤ max_manifest_entries

  AreOf-in_package :
      (entries : List ManifestEntry) (lines : List Text)
      → AreOf entries lines
      → All (λ (entry : ManifestEntry). IsPackagePath entry.relative_path) entries
  AreOf-in_package entries lines none_left = tt
  AreOf-in_package entries lines (blank empty h) = AreOf-in_package entries _ h
  AreOf-in_package entries lines (taken entry line h more) =
      let (same, first, others) =
        normalize_manifest_path-split (drop 66 (without_return line)) entry.relative_path h.path in
      ((first, others), AreOf-in_package _ _ more)

  not_empty_lem :
      (o : Option (List ManifestEntry)) (entries : List ManifestEntry)
      → not_empty lower upper o ≡ some entries
      → (o ≡ some entries) × (0 < length entries)
  not_empty_lem none entries h = absurd (none_not_some entries h)
  not_empty_lem (some []) entries h = absurd (none_not_some entries h)
  not_empty_lem (some (e ∷ es)) entries h = (
    h,
    subst (λ (r : List ManifestEntry). 0 < length r) (some_inj (e ∷ es) entries h) (omega arith),
  )

  -- Where parse_manifest_text returns true, the entries are those of the text's lines that are not
  -- empty, in their order: each line has 64 hexadecimal digits, two blanks and a path that
  -- normalize_manifest_path accepts. Each segment of its path can stand in a path of the
  -- package. There are 1 to 256 entries, and no two have paths that differ in the case of letters
  -- only.
  pub parse_manifest_text-IsManifest :
      (text : Text) (entries : List ManifestEntry)
      → parse_manifest_text lower upper text ≡ some entries
      → IsManifest text entries
  unfolding parse_manifest_text
  parse_manifest_text-IsManifest text entries h =
      elim (Bool-cases (is_empty text || ltb max_manifest_bytes (length text))) [
        | inl refused ↦ absurd (none_not_some entries (rw refused at h))
        | inr accepted ↦
            let (parsed, some_entry) = not_empty_lem _ entries (rw accepted at h) in
            let p = parse_lines-Parsed (lines_of text) [] entries parsed in
            record {
              given = first (is_empty text) (ltb max_manifest_bytes (length text)) accepted;
              in_package = AreOf-in_package entries (lines_of text) (
                  subst (λ (r : List ManifestEntry). AreOf r (lines_of text)) (sym p.whole)
                    p.of_lines);
              of_lines =
                  subst (λ (r : List ManifestEntry). AreOf r (lines_of text)) (sym p.whole)
                    p.of_lines;
              distinct = subst (AreDistinct []) (sym p.whole) p.distinct;
              some_entry = some_entry;
              count = p.count (omega arith);
            }
      ]
    where
      first : (a b : Bool) → (a || b) ≡ false → a ≡ false
      first a b e = ground arith
