-- ===== src/Manager/Redact/Ends.antt =====
-- The loop of redact_user_path in launcher/manager_model.cpp ends, and what it gives.
use ffb_interceptor_visualiz.Common.{
  ℕ, zero, suc, ◌+◌, ◌<◌, ◌≡◌, refl, sym, ap, ◌∙◌, true, false, ◌||◌, [], ◌∷◌, ◌++◌, map, Option,
  none, some, ◌==◌, if◌then◌else◌, length, take, drop, arith, Bool-cases, Option-cases, inl, inr,
  subst, ltb, length-append, append-nil, append_assoc,
}
use ffb_interceptor_visualiz.Manager.Elevated.{Text}
use ffb_interceptor_visualiz.Manager.Paths.{is_empty}
use ffb_interceptor_visualiz.Manager.Redact.{
  user_profile, find, replaced, redact_loop, redact_user_path,
}
use ffb_interceptor_visualiz.Manager.Redact.Find.{
  IsFirst, IsAbsent, find-IsFirst, find-IsAbsent, find_parts,
}

-- The occurrences of `home`, but for the case of letters, are replaced from the left on.
pub data Redacts (lower : ℕ → ℕ) (home : Text) : Text → Text → Type 0 where
  rest : {text : Text} → IsAbsent (map lower home) (map lower text) → Redacts lower home text text
  next :
      (before middle after out : Text)
      → map lower middle ≡ map lower home
      → IsFirst (map lower home) (map lower (before ++ (middle ++ after))) (length before)
      → Redacts lower home after out
      → Redacts lower home (before ++ (middle ++ after)) (before ++ (user_profile ++ out))

-- What the whole function gives.
abbrev pub Redacted :
    (lower : ℕ → ℕ) → (required : ℕ) → (value : Option Text) → Text → Text → Type 0
Redacted lower required none text out = out ≡ text
Redacted lower required (some home) text out =
    if required == 0 || ltb 32768 required || is_empty home
    then out ≡ text
    else Redacts lower home text out

drop-length : (xs ys : Text) → drop (length xs) (xs ++ ys) ≡ ys
drop-length [] ys = refl
drop-length (x ∷ xs) ys = drop-length xs ys

take-length : (xs ys : Text) → take (length xs) (xs ++ ys) ≡ xs
take-length [] ys = refl
take-length (x ∷ xs) ys = ap (λ zs. x ∷ zs) (take-length xs ys)

length-map : (f : ℕ → ℕ) (xs : Text) → length (map f xs) ≡ length xs
length-map f [] = refl
length-map f (x ∷ xs) = ap suc (length-map f xs)

ltb-true : (a b : ℕ) → a < b → ltb a b ≡ true
ltb-true a b h = ground arith

ltb_self : (a : ℕ) → ltb a a ≡ false
ltb_self a = ground arith

module _ (lower : ℕ → ℕ) (home : Text) where
  -- What one replacement leaves.
  replaced_parts :
      (front before middle after : Text)
      → length middle ≡ length home
      → replaced lower home (front ++ (before ++ (middle ++ after))) (length front + length before)
        ≡ ((front ++ before) ++ user_profile) ++ after
  replaced_parts front before middle after same = rw (before_it, behind) refl
    where
      before_it :
          take (length front + length before) (front ++ (before ++ (middle ++ after)))
          ≡ front ++ before
      before_it =
          rw (sym (length-append front before), sym (append_assoc front before (middle ++ after)))
            (take-length (front ++ before) (middle ++ after))

      size : length front + length before + length home ≡ length ((front ++ before) ++ middle)
      size = omega (arith, same, length-append front before, length-append (front ++ before) middle)

      behind :
          drop (length front + length before + length home) (front ++ (before ++ (middle ++ after)))
          ≡ after
      behind =
          rw
            (
              size,
              sym (append_assoc front before (middle ++ after)),
              sym (append_assoc (front ++ before) middle after),
            )
            (drop-length ((front ++ before) ++ middle) after)

  abbrev Ends : (fuel : ℕ) → (front text : Text) → Type 0
  Ends fuel front text =
      (out : Text) × (redact_loop lower home fuel (front ++ text) (length front)
        ≡ some (front ++ out))
      × Redacts lower home text out

  -- A text that is shorter than the home has no occurrence of it.
  empty-IsAbsent : is_empty home ≡ false → IsAbsent (map lower home) []
  empty-IsAbsent h = go home h
    where
      go : (pattern : Text) → is_empty pattern ≡ false → IsAbsent (map lower pattern) []
      go [] k before after e = cc
      go (p ∷ ps) k [] after e = cc
      go (p ∷ ps) k (b ∷ bs) after e = cc

  home_size : is_empty home ≡ false → 0 < length home
  home_size h = go home h
    where
      go : (pattern : Text) → is_empty pattern ≡ false → 0 < length pattern
      go [] k = cc
      go (p ∷ ps) k = omega arith

  middle_size : (middle : Text) → map lower middle ≡ map lower home → length middle ≡ length home
  middle_size middle same = sym (length-map lower middle) ∙ ap length same ∙ length-map lower home

  -- The rest of the loop behind a replacement.
  next_turn :
      (fuel : ℕ) (front before middle after : Text)
      → map lower middle ≡ map lower home
      → IsFirst (map lower home) (map lower (before ++ (middle ++ after))) (length before)
      → Ends fuel ((front ++ before) ++ user_profile) after
      → (out : Text) × (redact_loop lower home fuel
            (replaced lower home
              (front ++ (before ++ (middle ++ after)))
              (length front + length before))
            (length front + length before + length user_profile)
          ≡ some (front ++ out))
        × Redacts lower home (before ++ (middle ++ after)) out
  next_turn fuel front before middle after same first (out, ends, redacts) = (
    before ++ (user_profile ++ out),
    rw (replaced_parts front before middle after (middle_size middle same), offset)
        (ends
          ∙ ap some (
              append_assoc (front ++ before) user_profile out
              ∙ append_assoc front before (user_profile ++ out))),
    next before middle after out same first redacts,
  )
    where
      offset :
          length front + length before + length user_profile
          ≡ length ((front ++ before) ++ user_profile)
      offset =
          omega (arith, length-append front before, length-append (front ++ before) user_profile)

  redact_loop-Ends :
      (fuel : ℕ) (front text : Text)
      → is_empty home ≡ false
      → length text < fuel
      → Ends fuel front text
  unfolding redact_loop
  redact_loop-Ends zero front text h k = absurd (omega arith)
  redact_loop-Ends (suc fuel) front [] h k =
      ([], rw (append-nil front, ltb_self (length front)) refl, rest (empty-IsAbsent h))
  redact_loop-Ends (suc fuel) front (c ∷ cs) h k =
      elim (Option-cases (find (map lower home) (map lower (c ∷ cs)))) [
        | inl absent ↦ (
          c ∷ cs,
          rw (within, drop-length front (c ∷ cs), absent) refl,
          rest (find-IsAbsent (map lower home) (map lower (c ∷ cs)) absent),
        )
        | inr (n, found) ↦
            let (before, middle, after, parts, size, matched) =
              find_parts lower (map lower home) (c ∷ cs) n found in
            let first = find-IsFirst (map lower home) (map lower (c ∷ cs)) n found in
            let shorter : length after < fuel = omega (
              arith,
              k,
              ap length parts,
              length-append before (middle ++ after),
              length-append middle after,
              middle_size middle matched,
              home_size h,
            ) in
            let turn =
              next_turn fuel front before middle after matched
                (subst (λ (t : Text). IsFirst (map lower home) (map lower t) (length before)) parts
                  (subst (λ (m : ℕ). IsFirst (map lower home) (map lower (c ∷ cs)) m) (sym size)
                    first))
                (redact_loop-Ends fuel ((front ++ before) ++ user_profile) after h shorter) in
            let (out, ends, redacts) =
              subst (λ (t : Text). Turn t n) (sym parts)
                (subst (λ (m : ℕ). Turn (before ++ (middle ++ after)) m) size turn) in
            (out, rw (within, drop-length front (c ∷ cs), found) ends, redacts)
      ]
    where
      within : ltb (length front) (length (front ++ c ∷ cs)) ≡ true
      within = ltb-true _ _ (omega (arith, length-append front (c ∷ cs)))

      Turn : Text → ℕ → Type 0
      Turn t m =
          (out : Text) × (redact_loop lower home fuel
              (replaced lower home (front ++ t) (length front + m))
              (length front + m + length user_profile)
            ≡ some (front ++ out))
          × Redacts lower home t out

-- redact_user_path returns a text, for every text and whatever USERPROFILE is: as many turns as the
-- text has characters, and one more, are enough for its loop. The text is the given one, or, if
-- USERPROFILE can be read and is not empty, the one with each occurrence of it replaced by
-- %USERPROFILE%, from the left on and whatever the case of letters.
pub redact_user_path_ends :
    (lower : ℕ → ℕ) (required : ℕ) (value : Option Text) (text : Text)
    → (out : Text) × (redact_user_path lower (suc (length text)) required value text ≡ some out)
      × Redacted lower required value text out
unfolding redact_user_path
redact_user_path_ends lower required none text =
    elim (Bool-cases (required == 0 || ltb 32768 required)) [
      | inl refused ↦ (text, rw refused refl, refl)
      | inr fine ↦ (text, rw fine refl, refl)
    ]
redact_user_path_ends lower required (some home) text =
    elim (Bool-cases (required == 0 || ltb 32768 required)) [
      | inl refused ↦ (text, rw refused refl, rw refused refl)
      | inr fine ↦ elim (Bool-cases (is_empty home)) [
        | inl empty ↦ (text, rw (fine, empty) refl, rw (fine, empty) refl)
        | inr given ↦
            let (out, ends, redacts) =
              redact_loop-Ends lower home (suc (length text)) [] text given (omega arith) in
            (out, rw (fine, given) ends, rw (fine, given) redacts)
      ]
    ]
