-- ===== src/Manager/Paths/Reference.antt =====
-- normalize_manifest_path of launcher/manager_model.cpp, against a split into segments.
use ffb_interceptor_visualiz.Common.{
  ℕ, ◌≡◌, refl, sym, ap, ◌∙◌, Bool, true, false, ◌&&◌, not, List, [], ◌∷◌, ◌++◌, append-nil,
  append_assoc, Option, none, some, if◌then◌else◌, all, Bool-cases, inl, inr, ◌⊎◌,
}
use ffb_interceptor_visualiz.Manager.Elevated.{Text}
use ffb_interceptor_visualiz.Manager.Paths.{
  is_empty, is_malformed, is_device, device_name, is_forbidden, append_segment, flush_segment,
  is_separator, advance, flushed, normalize_from, is_refused, normalize_manifest_path,
}

false_not_true : false ≡ true → ⊥
false_not_true e = cc

-- The first segment and the others.
abbrev pub Segments : Type 0
Segments = Text × List Text

unfoldable pub split : Text → Segments
split [] = ([], [])
split (c ∷ cs) =
    let (first, more) = split cs in if is_separator c then ([], first ∷ more) else (c ∷ first, more)

-- With `\` between the segments.
unfoldable pub join : Text → List Text → Text
join first [] = first
join first (second ∷ more) = join (first ++ 92 ∷ second) more

-- A segment that can stand in a path of the package.
unfoldable pub is_plain : Text → Bool
is_plain segment =
    not (is_malformed segment)
    && not (is_device (device_name segment))
    && all (λ (c : ℕ). not (is_forbidden c)) segment

append_segment-eq :
    (output segment : Text)
    → append_segment output segment
      ≡ (if all (λ (c : ℕ). not (is_forbidden c)) segment then some (output ++ segment) else none)
unfolding append_segment
append_segment-eq output [] = ap some (sym (append-nil output))
append_segment-eq output (c ∷ cs) = elim (Bool-cases (is_forbidden c)) [
  | inl f ↦ rw f refl
  | inr f ↦
      rw f (append_segment-eq (output ++ c ∷ []) cs ∙ rw (append_assoc output (c ∷ []) cs) refl)
]

-- The output behind a segment.
abbrev glue : (output segment : Text) → Text
glue output segment = (if is_empty output then output else output ++ 92 ∷ []) ++ segment

flush_segment-eq :
    (output segment : Text)
    → flush_segment output segment ≡ (if is_plain segment then some (glue output segment) else none)
unfolding flush_segment is_plain
flush_segment-eq output segment = elim (Bool-cases (is_malformed segment)) [
  | inl m ↦ rw m refl
  | inr m ↦ elim (Bool-cases (is_device (device_name segment))) [
    | inl d ↦ rw (m, d) refl
    | inr d ↦ rw (m, d) (append_segment-eq _ segment)
  ]
]

normalize_from-none : (cs : Text) → normalize_from cs none ≡ none
unfolding normalize_from advance
normalize_from-none [] = refl
normalize_from-none (c ∷ cs) = normalize_from-none cs

-- The segments checked and glued from the first on.
unfoldable checked : (output first : Text) → List Text → Option Text
checked output first [] = if is_plain first then some (glue output first) else none
checked output first (second ∷ more) =
    let rest = checked (glue output first) second more in if is_plain first then rest else none

normalize_from-eq :
    (cs output segment : Text)
    → normalize_from cs (some (output, segment))
      ≡ checked output (segment ++ (split cs).0) (split cs).1
unfolding normalize_from advance checked split
normalize_from-eq [] output segment = rw (append-nil segment) (flush_segment-eq output segment)
normalize_from-eq (c ∷ cs) output segment = elim (Bool-cases (is_separator c)) [
  | inl b ↦
      rw (b, append-nil segment, flush_segment-eq output segment)
        (behind (normalize_from-eq cs (glue output segment) []) (Bool-cases (is_plain segment)))
  | inr b ↦ rw b (
      normalize_from-eq cs output (segment ++ c ∷ [])
      ∙ rw (append_assoc segment (c ∷ []) (split cs).0) refl)
]
  where
    behind :
        normalize_from cs (some (glue output segment, []))
          ≡ checked (glue output segment) (split cs).0 (split cs).1
        → (is_plain segment ≡ true) ⊎ (is_plain segment ≡ false)
        → normalize_from cs
            (flushed (if is_plain segment then some (glue output segment) else none))
          ≡ checked output segment ((split cs).0 ∷ (split cs).1)
    behind e (inl h) = unfold checked in rw h e
    behind e (inr h) = unfold checked in rw h (normalize_from-none cs)

is_empty-append : (xs ys : Text) → is_empty ys ≡ false → is_empty (xs ++ ys) ≡ false
is_empty-append [] ys h = h
is_empty-append (x ∷ xs) ys h = refl

is_plain_lem : (segment : Text) → is_plain segment ≡ true → is_empty segment ≡ false
unfolding is_plain is_malformed
is_plain_lem [] h = absurd (false_not_true h)
is_plain_lem (c ∷ cs) h = refl

checked-join :
    (output first : Text) (more : List Text)
    → checked output first more
      ≡ (if is_plain first && all is_plain more then some (join (glue output first) more) else none)
unfolding checked join
checked-join output first [] = elim (Bool-cases (is_plain first)) [
  | inl h ↦ rw h refl
  | inr h ↦ rw h refl
]
checked-join output first (second ∷ more) = elim (Bool-cases (is_plain first)) [
  | inl h ↦
      let given : is_empty (glue output first) ≡ false =
        is_empty-append (if is_empty output then output else output ++ 92 ∷ []) first
          (is_plain_lem first h) in
      rw h (
        checked-join (glue output first) second more
        ∙ rw (given, append_assoc (glue output first) (92 ∷ []) second) refl)
  | inr h ↦ rw h refl
]

-- For every path, normalize_manifest_path gives what a split at the separators gives: nothing, if
-- the path is refused as a whole or one of its segments cannot stand in a path of the package, and
-- otherwise the segments with one backslash between them.
pub normalize_manifest_path-eq :
    (input : Text)
    → let (first, more) = split input in
      normalize_manifest_path input ≡ (
        if is_refused input
        then none
        else if is_plain first && all is_plain more
        then some (join first more)
        else none)
unfolding normalize_manifest_path
normalize_manifest_path-eq input =
    rw (normalize_from-eq input [] [], checked-join [] (split input).0 (split input).1) refl
