-- ===== src/Manager/Paths/Stable.antt =====
-- What normalize_manifest_path of launcher/manager_model.cpp returns has the segments of its input.
use ffb_interceptor_visualiz.Common.{
  ℕ, ◌≡◌, refl, sym, subst, arith, ◌∙◌, Bool, true, false, ◌&&◌, List, [], ◌∷◌, ◌++◌, append_assoc,
  none, some, all, All, Bool-cases, inl, inr,
}
use ffb_interceptor_visualiz.Manager.Elevated.{Text}
use ffb_interceptor_visualiz.Manager.Paths.{is_separator, is_refused, normalize_manifest_path}
use ffb_interceptor_visualiz.Manager.Paths.Reference.{
  split, join, is_plain, normalize_manifest_path-eq,
}

abbrev IsUnsplit : Text → Type 0
IsUnsplit text = All (λ (c : ℕ). is_separator c ≡ false) text

split-IsUnsplit : (cs : Text) → IsUnsplit (split cs).0 × All IsUnsplit (split cs).1
unfolding split
split-IsUnsplit [] = (tt, tt)
split-IsUnsplit (c ∷ cs) = elim (Bool-cases (is_separator c)) [
  | inl b ↦ rw b (tt, split-IsUnsplit cs)
  | inr b ↦ rw b ((b, (split-IsUnsplit cs).0), (split-IsUnsplit cs).1)
]

split-append :
    (first rest : Text)
    → IsUnsplit first
    → split (first ++ 92 ∷ rest) ≡ (first, (split rest).0 ∷ (split rest).1)
unfolding split
split-append [] rest h = refl
split-append (c ∷ cs) rest h = rw (h.0, split-append cs rest h.1) refl

split_self : (first : Text) → IsUnsplit first → split first ≡ (first, [])
unfolding split
split_self [] h = refl
split_self (c ∷ cs) h = rw (h.0, split_self cs h.1) refl

join-append :
    (front first : Text) (more : List Text) → join (front ++ first) more ≡ front ++ join first more
unfolding join
join-append front first [] = refl
join-append front first (second ∷ more) =
    rw (append_assoc front first (92 ∷ second)) (join-append front (first ++ 92 ∷ second) more)

split-join :
    (first : Text) (more : List Text)
    → IsUnsplit first
    → All IsUnsplit more
    → split (join first more) ≡ (first, more)
unfolding join
split-join first [] h k = split_self first h
split-join first (second ∷ more) h k =
    rw
      (
        join-append first (92 ∷ second) more,
        join-append (92 ∷ []) second more,
        split-append first (join second more) h,
        split-join second more k.0 k.1,
      )
      refl

-- The segments of a path that is not refused.
abbrev IsStable : Text → Text → Type 0
IsStable input output =
    (split output ≡ split input)
    × (is_plain (split output).0 ≡ true)
    × (all is_plain (split output).1 ≡ true)

join-IsStable :
    (input : Text)
    → is_plain (split input).0 ≡ true
    → all is_plain (split input).1 ≡ true
    → IsStable input (join (split input).0 (split input).1)
join-IsStable input h k =
    let (first, more) = split-IsUnsplit input in
    rw (split-join (split input).0 (split input).1 first more) (refl, h, k)

some_inj : (a b : Text) → some a ≡ some b → a ≡ b
some_inj a b e = cc

both : (a b : Bool) → (a && b) ≡ true → (a ≡ true) × (b ≡ true)
both a b h = ground arith

none_not_some : (a : Text) → none ≡ some a → ⊥
none_not_some a e = cc

-- What normalize_manifest_path returns splits into the segments of its input, each of which can
-- stand in a path of the package: none is empty, `.`, `..` or a device, for instance.
pub normalize_manifest_path-split :
    (input output : Text)
    → normalize_manifest_path input ≡ some output
    → (split output ≡ split input)
      × (is_plain (split output).0 ≡ true)
      × (all is_plain (split output).1 ≡ true)
normalize_manifest_path-split input output e =
    let result = sym (normalize_manifest_path-eq input) ∙ e in
    elim (Bool-cases (is_refused input)) [
      | inl r ↦ absurd (none_not_some output (rw r at result))
      | inr r ↦ elim (Bool-cases (is_plain (split input).0 && all is_plain (split input).1)) [
        | inl h ↦
            let (first, more) = both (is_plain (split input).0) (all is_plain (split input).1) h in
            subst (IsStable input)
              (some_inj (join (split input).0 (split input).1) output (rw (r, h) at result))
              (join-IsStable input first more)
        | inr h ↦ absurd (none_not_some output (rw (r, h) at result))
      ]
    ]
