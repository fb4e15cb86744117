-- ===== src/Wire/Kinds.antt =====
-- effect_kind_from_guid of src/telemetry_protocol.cpp. The twelve GUIDs of dinput.h are an argument,
-- `guid_of`; what it gives for the unknown kind is not used.
use ffb_interceptor_visualiz.Common.{
  subst, All, ◌↔◌, Bool-cases, inl, inr, ℕ, ◌≡◌, ◌≢◌, refl, sym, ◌∙◌, true, false, List, [], ◌∷◌,
  if◌then◌else◌, arith,
}
use ffb_interceptor_visualiz.Wire.Model.{
  EffectKind, constant, ramp, square, sine, triangle, sawtooth_up, sawtooth_down, spring, damper,
  inertia, friction, custom,
}
use ffb_interceptor_visualiz.Wire.Frame.{bytes_eq}

-- The kinds in the order of the tests.
abbrev pub named_kinds : List EffectKind
named_kinds =
    constant ∷ ramp ∷ square ∷ sine ∷ triangle ∷ sawtooth_up ∷ sawtooth_down ∷ spring ∷ damper
    ∷ inertia ∷ friction ∷ custom ∷ []

-- The first of the kinds whose GUID is `guid`.
unfoldable pub first_kind : (EffectKind → List ℕ) → List ℕ → List EffectKind → EffectKind
first_kind guid_of guid [] = EffectKind.unknown
first_kind guid_of guid (kind ∷ kinds) =
    let rest = first_kind guid_of guid kinds in if bytes_eq guid (guid_of kind) then kind else rest

unfoldable pub effect_kind_from_guid : (EffectKind → List ℕ) → List ℕ → EffectKind
unfolding first_kind
effect_kind_from_guid guid_of guid = first_kind guid_of guid named_kinds

bytes_eq→eq : (xs ys : List ℕ) → bytes_eq xs ys ≡ true → xs ≡ ys
unfolding bytes_eq
bytes_eq→eq [] [] h = refl
bytes_eq→eq [] (y ∷ ys) h = cc
bytes_eq→eq (x ∷ xs) [] h = cc
bytes_eq→eq (x ∷ xs) (y ∷ ys) h = ground (arith, bytes_eq→eq xs ys)

bytes_eq_refl : (xs : List ℕ) → bytes_eq xs xs ≡ true
unfolding bytes_eq
bytes_eq_refl [] = refl
bytes_eq_refl (x ∷ xs) = ground (arith, bytes_eq_refl xs)

true_ne_false : true ≢ false
true_ne_false h = cc

module _ (guid_of : EffectKind → List ℕ) (guid : List ℕ) where
  first_kind_matches :
      (kinds : List EffectKind)
      → first_kind guid_of guid kinds ≢ EffectKind.unknown
      → bytes_eq guid (guid_of (first_kind guid_of guid kinds)) ≡ true
  unfolding first_kind
  first_kind_matches [] n = absurd (n refl)
  first_kind_matches (kind ∷ kinds) n = elim (Bool-cases (bytes_eq guid (guid_of kind))) [
    | inl h ↦ rw (h, h) refl
    | inr h ↦ rw h (first_kind_matches kinds (rw h at n))
  ]

  no_kind_matches :
      (kinds : List EffectKind)
      → All (λ k. k ≢ EffectKind.unknown) kinds
      → first_kind guid_of guid kinds ≡ EffectKind.unknown
      → All (λ k. bytes_eq guid (guid_of k) ≡ false) kinds
  unfolding first_kind
  no_kind_matches [] named h = tt
  no_kind_matches (kind ∷ kinds) named h = elim (Bool-cases (bytes_eq guid (guid_of kind))) [
    | inl e ↦ absurd (named.0 (rw e at h))
    | inr e ↦ (e, no_kind_matches kinds named.1 (rw e at h))
  ]

named_kinds-named : All (λ k. k ≢ EffectKind.unknown) named_kinds
named_kinds-named = ground arith

at_named :
    (P : EffectKind → Type 0) (k : EffectKind) → k ≢ EffectKind.unknown → All P named_kinds → P k
at_named P EffectKind.unknown n all = absurd (n refl)
at_named P constant n all = all.0
at_named P ramp n all = all.1.0
at_named P square n all = all.1.1.0
at_named P sine n all = all.1.1.1.0
at_named P triangle n all = all.1.1.1.1.0
at_named P sawtooth_up n all = all.1.1.1.1.1.0
at_named P sawtooth_down n all = all.1.1.1.1.1.1.0
at_named P spring n all = all.1.1.1.1.1.1.1.0
at_named P damper n all = all.1.1.1.1.1.1.1.1.0
at_named P inertia n all = all.1.1.1.1.1.1.1.1.1.0
at_named P friction n all = all.1.1.1.1.1.1.1.1.1.1.0
at_named P custom n all = all.1.1.1.1.1.1.1.1.1.1.1.0

EffectKind-discrete : Discrete EffectKind
EffectKind-discrete = hlevel

-- Where the twelve GUIDs differ from each other, effect_kind_from_guid gives a kind other than the
-- unknown one exactly for its GUID.
pub effect_kind_from_guid-eq :
    (guid_of : EffectKind → List ℕ) (guid : List ℕ) (kind : EffectKind)
    → ((j k : EffectKind)
        → j ≢ EffectKind.unknown
        → k ≢ EffectKind.unknown
        → guid_of j ≡ guid_of k
        → j ≡ k)
    → kind ≢ EffectKind.unknown
    → (effect_kind_from_guid guid_of guid ≡ kind) ↔ (guid ≡ guid_of kind)
unfolding effect_kind_from_guid
effect_kind_from_guid-eq guid_of guid kind distinct n = (sound, complete)
  where
    sound : first_kind guid_of guid named_kinds ≡ kind → guid ≡ guid_of kind
    sound h = bytes_eq→eq guid (guid_of kind) (
        subst (λ k. bytes_eq guid (guid_of k) ≡ true) h
          (first_kind_matches guid_of guid named_kinds (λ e. n (sym h ∙ e))))

    complete : guid ≡ guid_of kind → first_kind guid_of guid named_kinds ≡ kind
    complete h =
        elim (EffectKind-discrete (first_kind guid_of guid named_kinds) EffectKind.unknown) [
          | yes e ↦ absurd (
              true_ne_false (
                sym (rw h (bytes_eq_refl (guid_of kind)))
                ∙ at_named (λ k. bytes_eq guid (guid_of k) ≡ false) kind n
                    (no_kind_matches guid_of guid named_kinds named_kinds-named e)))
          | no other ↦
              distinct _ kind other n
                (sym (bytes_eq→eq guid _ (first_kind_matches guid_of guid named_kinds other)) ∙ h)
        ]
