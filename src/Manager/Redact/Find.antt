-- ===== src/Manager/Redact/Find.antt =====
-- What std::wstring::find gives, and the parts of a text around it.
use ffb_interceptor_visualiz.Common.{
  ℕ, suc, ◌≤◌, ◌≡◌, refl, sym, ap, ◌∙◌, Bool, true, false, ◌&&◌, [], ◌∷◌, ◌++◌, map, Option, none,
  some, ◌==◌, length, arith, Bool-cases, inl, inr, ==_iff, subst,
}
use ffb_interceptor_visualiz.Manager.Elevated.{Text}
use ffb_interceptor_visualiz.Manager.Redact.{is_prefix, one_more_index, find}

is_prefix-append : (pattern after : Text) → is_prefix pattern (pattern ++ after) ≡ true
unfolding is_prefix
is_prefix-append [] after = refl
is_prefix-append (p ∷ ps) after = ground (arith, is_prefix-append ps after)

-- No occurrence of the pattern begins before the position.
abbrev pub IsFirst : (pattern text : Text) → ℕ → Type 0
IsFirst pattern text n =
    (before after : Text) → text ≡ before ++ (pattern ++ after) → n ≤ length before

abbrev pub IsAbsent : (pattern text : Text) → Type 0
IsAbsent pattern text = (before after : Text) → text ≡ before ++ (pattern ++ after) → ⊥

and_both : (a b : Bool) → (a && b) ≡ true → (a ≡ true) × (b ≡ true)
and_both true b h = (refl, h)
and_both false b h = cc

one_more_index-some :
    (o : Option ℕ) (n : ℕ) → one_more_index o ≡ some n → (m : ℕ) × (o ≡ some m) × (n ≡ suc m)
one_more_index-some none n h = cc
one_more_index-some (some m) n h = (m, refl, cc)

one_more_index-none : (o : Option ℕ) → one_more_index o ≡ none → o ≡ none
one_more_index-none none h = refl
one_more_index-none (some m) h = cc

abbrev tail_of : Text → Text
tail_of [] = []
tail_of (c ∷ cs) = cs

prefix_contradicts :
    (pattern after text : Text) → is_prefix pattern text ≡ false → text ≡ pattern ++ after → ⊥
prefix_contradicts pattern after text h e =
    not_both (subst (λ (t : Text). is_prefix pattern t ≡ false) e h)
      (is_prefix-append pattern after)
  where
    not_both : {b : Bool} → b ≡ false → b ≡ true → ⊥
    not_both h k = cc

some_zero : (n : ℕ) → some 0 ≡ some n → n ≡ 0
some_zero n h = cc

none_not_some : (n : ℕ) → none ≡ some n → ⊥
none_not_some n h = cc

pub find-IsFirst :
    (pattern text : Text) (n : ℕ) → find pattern text ≡ some n → IsFirst pattern text n
unfolding find
find-IsFirst pattern [] n h = elim (Bool-cases (is_prefix pattern [])) [
  | inl here ↦ λ before after e. omega (arith, some_zero n (rw here at h))
  | inr other ↦ absurd (none_not_some n (rw other at h))
]
find-IsFirst pattern (c ∷ cs) n h = elim (Bool-cases (is_prefix pattern (c ∷ cs))) [
  | inl here ↦ λ before after e. omega (arith, some_zero n (rw here at h))
  | inr later ↦
      let (m, found, same) = one_more_index-some (find pattern cs) n (rw later at h) in
      not_here m later same (find-IsFirst pattern cs m found)
]
  where
    not_here :
        (m : ℕ)
        → is_prefix pattern (c ∷ cs) ≡ false
        → n ≡ suc m
        → IsFirst pattern cs m
        → IsFirst pattern (c ∷ cs) n
    not_here m later same k [] after e = absurd (prefix_contradicts pattern after (c ∷ cs) later e)
    not_here m later same k (b ∷ bs) after e = omega (arith, same, k bs after (ap tail_of e))

pub find-IsAbsent : (pattern text : Text) → find pattern text ≡ none → IsAbsent pattern text
unfolding find
find-IsAbsent pattern [] h = elim (Bool-cases (is_prefix pattern [])) [
  | inl here ↦ absurd (none_not_some 0 (sym (rw here at h)))
  | inr other ↦ not_empty other
]
  where
    not_empty : is_prefix pattern [] ≡ false → IsAbsent pattern []
    not_empty other [] after e = prefix_contradicts pattern after [] other e
    not_empty other (b ∷ bs) after e = cc
find-IsAbsent pattern (c ∷ cs) h = elim (Bool-cases (is_prefix pattern (c ∷ cs))) [
  | inl here ↦ absurd (none_not_some 0 (sym (rw here at h)))
  | inr other ↦
      not_here other
        (find-IsAbsent pattern cs (one_more_index-none (find pattern cs) (rw other at h)))
]
  where
    not_here : is_prefix pattern (c ∷ cs) ≡ false → IsAbsent pattern cs → IsAbsent pattern (c ∷ cs)
    not_here other k [] after e = prefix_contradicts pattern after (c ∷ cs) other e
    not_here other k (b ∷ bs) after e = k bs after (ap tail_of e)

module _ (lower : ℕ → ℕ) where
  pub map-append : (xs ys : Text) → map lower (xs ++ ys) ≡ map lower xs ++ map lower ys
  map-append [] ys = refl
  map-append (x ∷ xs) ys = ap (λ zs. lower x ∷ zs) (map-append xs ys)

  is_prefix_parts :
      (pattern text : Text)
      → is_prefix pattern (map lower text) ≡ true
      → (middle after : Text) × (text ≡ middle ++ after) × (map lower middle ≡ pattern)
  unfolding is_prefix
  is_prefix_parts [] text h = ([], text, refl, refl)
  is_prefix_parts (p ∷ ps) [] h = cc
  is_prefix_parts (p ∷ ps) (c ∷ cs) h =
      let (first, rest) = and_both (p == lower c) (is_prefix ps (map lower cs)) h in
      let (middle, after, same, matched) = is_prefix_parts ps cs rest in
      (
        c ∷ middle,
        after,
        ap (λ zs. c ∷ zs) same,
        subst (λ (q : ℕ). lower c ∷ map lower middle ≡ q ∷ ps) (sym ((==_iff p (lower c)).0 first))
            (ap (λ zs. lower c ∷ zs) matched),
      )

  -- The text around an occurrence that find has seen.
  pub find_parts :
      (pattern text : Text) (n : ℕ)
      → find pattern (map lower text) ≡ some n
      → (before middle after : Text) × (text ≡ before ++ (middle ++ after))
        × (length before ≡ n)
        × (map lower middle ≡ pattern)
  unfolding find
  find_parts pattern [] n h = elim (Bool-cases (is_prefix pattern [])) [
    | inl here ↦
        let (middle, after, same, matched) = is_prefix_parts pattern [] here in
        ([], middle, after, same, sym (some_zero n (rw here at h)), matched)
    | inr other ↦ absurd (none_not_some n (rw other at h))
  ]
  find_parts pattern (c ∷ cs) n h = elim (Bool-cases (is_prefix pattern (map lower (c ∷ cs)))) [
    | inl here ↦
        let (middle, after, same, matched) = is_prefix_parts pattern (c ∷ cs) here in
        ([], middle, after, same, sym (some_zero n (rw here at h)), matched)
    | inr later ↦
        let (m, found, same) =
          one_more_index-some (find pattern (map lower cs)) n (rw later at h) in
        let (before, middle, after, parts, size, matched) = find_parts pattern cs m found in
        (c ∷ before, middle, after, ap (λ zs. c ∷ zs) parts, ap suc size ∙ sym same, matched)
  ]
