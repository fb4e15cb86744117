-- ===== src/Manager/Signatures/Policy.antt =====
-- What evaluate_signature_policy of launcher/manager_model.cpp allows.
use ffb_interceptor_visualiz.Common.{
  ℕ, ◌≡◌, refl, sym, subst, ◌∙◌, Bool, true, false, ◌||◌, not, List, [], ◌∷◌, ◌++◌, map, All, arith,
  Bool-cases, inl, inr, ◌⊎◌,
}
use ffb_interceptor_visualiz.Manager.Elevated.{Text, text_eq}
use ffb_interceptor_visualiz.Manager.Paths.{is_empty}
use ffb_interceptor_visualiz.Manager.Integrity.{is_clean}
use ffb_interceptor_visualiz.Manager.Signatures.{
  SignaturePolicy, SignatureEvidence, valid_sha256_text, Judgement, join_signer, expect_signer,
  judge, judge_all, evaluate_signature_policy,
}

-- The evidence of a file that is signed as the policy asks, by the signer in lower case.
pub record IsSigned (lower : ℕ → ℕ) (same : Text → Text → Bool) (policy : SignaturePolicy)
    (signer : Text) (item : SignatureEvidence) : Type 0 where
  pub trusted : item.trusted ≡ true
  pub form : valid_sha256_text item.signer_sha256 ≡ true
  pub common : map lower item.signer_sha256 ≡ signer
  pub expected :
      (is_empty policy.expected_signer_sha256 ≡ true)
      ⊎ (same item.signer_sha256 policy.expected_signer_sha256 ≡ true)

pub text_eq_lem : (a b : Text) → text_eq a b ≡ true → a ≡ b
unfolding text_eq
text_eq_lem [] [] h = refl
text_eq_lem [] (y ∷ ys) h = cc
text_eq_lem (x ∷ xs) [] h = cc
text_eq_lem (x ∷ xs) (y ∷ ys) h = ground (arith, text_eq_lem xs ys)

dirty : (issues : List Text) (path : Text) → is_clean (issues ++ path ∷ []) ≡ false
dirty [] path = refl
dirty (i ∷ is) path = refl

given_signer :
    (lower : ℕ → ℕ) (value : Text)
    → valid_sha256_text value ≡ true
    → is_empty (map lower value) ≡ false
unfolding valid_sha256_text
given_signer lower [] h = ground arith
given_signer lower (c ∷ cs) h = refl

false_not_true : false ≡ true → ⊥
false_not_true e = cc

true_not_false : true ≡ false → ⊥
true_not_false e = cc

-- Without an issue, the common signer is the item's.
join_signer_lem :
    (path signer : Text) (j : Judgement)
    → is_clean (join_signer path signer j).issues ≡ true
    → (is_clean j.issues ≡ true)
      × ((join_signer path signer j).common_signer ≡ signer)
      × (is_empty j.common_signer ≡ false
          → (join_signer path signer j).common_signer ≡ j.common_signer)
join_signer_lem path signer j h = elim (Bool-cases (is_empty j.common_signer)) [
  | inl empty ↦ simp empty (simp empty at h, refl, λ e. absurd (true_not_false e))
  | inr given ↦ elim (Bool-cases (text_eq j.common_signer signer)) [
    | inl equal ↦
        simp (given, equal)
          (simp (given, equal) at h, text_eq_lem j.common_signer signer equal, λ e. refl)
    | inr other ↦ absurd (false_not_true (sym (dirty j.issues path) ∙ (simp (given, other) at h)))
  ]
]

expect_signer_lem :
    (same : Text → Text → Bool) (policy : SignaturePolicy) (item : SignatureEvidence)
    (j : Judgement)
    → is_clean (expect_signer same policy item j).issues ≡ true
    → (expect_signer same policy item j ≡ j)
      × ((is_empty policy.expected_signer_sha256 ≡ true)
          ⊎ (same item.signer_sha256 policy.expected_signer_sha256 ≡ true))
expect_signer_lem same policy item j h =
    elim (Bool-cases (is_empty policy.expected_signer_sha256)) [
      | inl empty ↦ simp empty (refl, inl refl)
      | inr given ↦ elim (Bool-cases (same item.signer_sha256 policy.expected_signer_sha256)) [
        | inl equal ↦ simp (given, equal) (refl, inr refl)
        | inr other ↦
            absurd (
              false_not_true (sym (dirty j.issues item.relative_path) ∙ (simp (given, other) at h)))
      ]
    ]

module _ (lower : ℕ → ℕ) (same : Text → Text → Bool) (policy : SignaturePolicy) where
  -- What a turn of the loop shows that leaves no issue.
  record Judged (item : SignatureEvidence) (j k : Judgement) : Type 0 where
    before : is_clean j.issues ≡ true
    signed : IsSigned lower same policy k.common_signer item
    kept : is_empty j.common_signer ≡ false → k.common_signer ≡ j.common_signer

  judge-Judged :
      (item : SignatureEvidence) (j : Judgement)
      → is_clean (judge lower same policy item j).issues ≡ true
      → Judged item j (judge lower same policy item j)
  unfolding judge
  judge-Judged item j h =
      elim (Bool-cases (not item.trusted || not (valid_sha256_text item.signer_sha256))) [
        | inl refused ↦
            absurd (false_not_true (sym (dirty j.issues item.relative_path) ∙ (simp refused at h)))
        | inr accepted ↦
            let signer = map lower item.signer_sha256 in
            let joined = join_signer item.relative_path signer j in
            let clean = simp accepted at h in
            let (same_state, expected) = expect_signer_lem same policy item joined clean in
            let (before, common, kept) =
              join_signer_lem item.relative_path signer j
                (subst (λ (k : Judgement). is_clean k.issues ≡ true) same_state clean) in
            let signed : Judged item j joined = record {
              before = before;
              signed = record {
                trusted = first item.trusted (valid_sha256_text item.signer_sha256) accepted;
                form = second item.trusted (valid_sha256_text item.signer_sha256) accepted;
                common = sym common;
                expected = expected;
              };
              kept = kept;
            } in
            simp accepted (subst (Judged item j) (sym same_state) signed)
      ]
    where
      first : (a b : Bool) → (not a || not b) ≡ false → a ≡ true
      first a b e = ground arith

      second : (a b : Bool) → (not a || not b) ≡ false → b ≡ true
      second a b e = ground arith

  -- The loop without an issue: all are signed by the common signer.
  record AllJudged (items : List SignatureEvidence) (j k : Judgement) : Type 0 where
    before : is_clean j.issues ≡ true
    signed : All (IsSigned lower same policy k.common_signer) items
    kept : is_empty j.common_signer ≡ false → k.common_signer ≡ j.common_signer

  judge_all-AllJudged :
      (items : List SignatureEvidence) (j : Judgement)
      → is_clean (judge_all lower same policy items j).issues ≡ true
      → AllJudged items j (judge_all lower same policy items j)
  unfolding judge_all
  judge_all-AllJudged [] j h = record { before = h; signed = tt; kept = λ e. refl }
  judge_all-AllJudged (item ∷ items) j h =
      let k = judge lower same policy item j in
      let rest = judge_all-AllJudged items k h in
      let here = judge-Judged item j rest.before in
      let given : is_empty k.common_signer ≡ false =
        subst (λ (t : Text). is_empty t ≡ false) here.signed.common
          (given_signer lower item.signer_sha256 here.signed.form) in
      record {
        before = here.before;
        signed = (
          subst (λ (t : Text). IsSigned lower same policy t item) (sym (rest.kept given))
              here.signed,
          rest.signed,
        );
        kept = λ e. rest.kept given ∙ here.kept e;
      }

  pub evaluate_signature_policy-IsSigned :
      (evidence : List SignatureEvidence)
      → policy.required ≡ true
      → (evaluate_signature_policy lower same policy evidence).allowed ≡ true
      → All
          (IsSigned lower same policy
            (evaluate_signature_policy lower same policy evidence).common_signer_sha256)
          evidence
  unfolding evaluate_signature_policy
  evaluate_signature_policy-IsSigned evidence required h =
      (judge_all-AllJudged evidence _ (clean policy.required _ required h)).signed
    where
      clean : (a b : Bool) → a ≡ true → (not a || b) ≡ true → b ≡ true
      clean a b e f = ground arith
