-- ===== src/Manager/Elevated/Grammar.antt =====
-- The command lines that parse_elevated_plugin_request of launcher/manager_model.cpp accepts.
use ffb_interceptor_visualiz.Common.{
  ℕ, suc, ◌+◌, ◌≤◌, ◌≡◌, ◌↔◌, ◌⊎◌, refl, sym, ap, subst, ◌∙◌, Bool, true, false, ◌&&◌, ◌||◌, not,
  List, [], ◌∷◌, ◌++◌, Option, some, leb, ltb, ◌==◌, ==_iff, if◌then◌else◌, length, length-append,
  get_or, take, drop, take-append-drop, all, All, arith, Bool-cases, inl, inr,
}
use ffb_interceptor_visualiz.Manager.Elevated.{
  Text, operation_switch, event_switch, path_switch, event_prefix, install_word, uninstall_word,
  text_eq, is_hex_digit, manager_invocation_event_name_is_valid, install, uninstall,
  ElevatedPluginRequest, empty_request, ParseResult, not_requested, invalid, valid,
  path_is_absolute_local, parse_operation, parse_request, parse_elevated_plugin_request, parse_into,
}

-- 0 to 9 or A to F
abbrev pub IsHexDigit : ℕ → Type 0
IsHexDigit c = ((48 ≤ c) × (c ≤ 57)) ⊎ ((65 ≤ c) × (c ≤ 70))

-- The prefix, and 64 hexadecimal digits.
abbrev pub IsEventName : Text → Type 0
IsEventName name =
    (digits : Text) × (name ≡ event_prefix ++ digits) × (length digits ≡ 64) × All IsHexDigit digits

-- A letter, a colon and a slash on a drive that is removable, fixed, optical or in memory.
abbrev pub IsLocalPath : (Text → ℕ) → Text → Type 0
IsLocalPath drive_type path =
    (letter : ℕ) × (slash : ℕ) × (rest : Text) × (path ≡ letter ∷ 58 ∷ slash ∷ rest)
    × (((65 ≤ letter) × (letter ≤ 90)) ⊎ ((97 ≤ letter) × (letter ≤ 122)))
    × ((slash ≡ 92) ⊎ (slash ≡ 47))
    × ((drive_type (letter ∷ 58 ∷ 92 ∷ []) ≡ 2)
        ⊎ (drive_type (letter ∷ 58 ∷ 92 ∷ []) ≡ 3)
        ⊎ (drive_type (letter ∷ 58 ∷ 92 ∷ []) ≡ 5)
        ⊎ (drive_type (letter ∷ 58 ∷ 92 ∷ []) ≡ 6))

-- The command lines of the helper, with what they ask for.
pub data Accepts (drive_type : Text → ℕ) : List Text → ElevatedPluginRequest → Type 0 where
  installs :
      (event : Text)
      → IsEventName event
      → Accepts drive_type (operation_switch ∷ install_word ∷ event_switch ∷ event ∷ []) (record {
        operation = install;
        manager_invocation_event = event;
        simhub_install_path = [];
      })
  installs_at :
      (event path : Text)
      → IsEventName event
      → IsLocalPath drive_type path
      → Accepts drive_type
          (operation_switch ∷ install_word ∷ event_switch ∷ event ∷ path_switch ∷ path ∷ [])
          (record {
            operation = install;
            manager_invocation_event = event;
            simhub_install_path = path;
          })
  uninstalls :
      (event : Text)
      → IsEventName event
      → Accepts drive_type (operation_switch ∷ uninstall_word ∷ event_switch ∷ event ∷ []) (record {
        operation = uninstall;
        manager_invocation_event = event;
        simhub_install_path = [];
      })

text_eq_self : (t : Text) → text_eq t t ≡ true
unfolding text_eq
text_eq_self [] = refl
text_eq_self (c ∷ cs) = ground (arith, text_eq_self cs)

text_eq_lem : (s t : Text) → text_eq s t ≡ true → s ≡ t
unfolding text_eq
text_eq_lem [] [] h = refl
text_eq_lem [] (y ∷ ys) h = cc
text_eq_lem (x ∷ xs) [] h = cc
text_eq_lem (x ∷ xs) (y ∷ ys) h = ground (arith, text_eq_lem xs ys)

hex_digits_agree : (c : ℕ) → (is_hex_digit c ≡ true) ↔ IsHexDigit c
hex_digits_agree c = ground arith

and_both : (a b : Bool) → (a && b) ≡ true → (a ≡ true) × (b ≡ true)
and_both a b h = ground arith

all_hex : (cs : Text) → all is_hex_digit cs ≡ true → All IsHexDigit cs
all_hex [] h = tt
all_hex (c ∷ cs) h =
    let (first, rest) = and_both (is_hex_digit c) (all is_hex_digit cs) h in
    ((hex_digits_agree c).0 first, all_hex cs rest)

hex_all : (cs : Text) → All IsHexDigit cs → all is_hex_digit cs ≡ true
hex_all [] h = refl
hex_all (c ∷ cs) h = rw ((hex_digits_agree c).1 h.0, hex_all cs h.1) refl

take_eq : (n : ℕ) (name : Text) → take n name ≡ event_prefix → name ≡ event_prefix ++ drop n name
take_eq n name same = sym (take-append-drop n name) ∙ ap (λ (t : Text). t ++ drop n name) same

valid_name_form :
    (name : Text) → manager_invocation_event_name_is_valid name ≡ true → IsEventName name
unfolding manager_invocation_event_name_is_valid
valid_name_form name h =
    elim (Bool-cases (
      not (length name == length event_prefix + 64)
      || not (text_eq (take (length event_prefix) name) event_prefix))) [
        | inl refused ↦ absurd (false_not_true (rw refused at h))
        | inr fine ↦
            let (size, front) =
              both (length name) (text_eq (take (length event_prefix) name) event_prefix) fine in
            let parts = take_eq (length event_prefix) name (text_eq_lem _ event_prefix front) in
            (
              drop (length event_prefix) name,
              parts,
              omega (
                arith,
                size,
                ap length parts,
                length-append event_prefix (drop (length event_prefix) name),
              ),
              all_hex _ (rw fine at h),
            )
      ]
  where
    false_not_true : false ≡ true → ⊥
    false_not_true e = cc

    both : (n : ℕ) (b : Bool) → (not (n == 41 + 64) || not b) ≡ false → (n ≡ 105) × (b ≡ true)
    both n b e = ground arith

valid_name_if :
    (name : Text) → IsEventName name → manager_invocation_event_name_is_valid name ≡ true
unfolding manager_invocation_event_name_is_valid
valid_name_if name (digits, same, size, hex) =
    subst (λ (t : Text). manager_invocation_event_name_is_valid t ≡ true) (sym same)
      (unfold manager_invocation_event_name_is_valid in
        rw (size, text_eq_self event_prefix, hex_all digits hex) refl)

absolute_path_form :
    (drive_type : Text → ℕ) (path : Text)
    → path_is_absolute_local drive_type path ≡ true
    → IsLocalPath drive_type path
unfolding path_is_absolute_local
absolute_path_form drive_type [] h = cc
absolute_path_form drive_type (a ∷ []) h = cc
absolute_path_form drive_type (a ∷ b ∷ []) h = cc
absolute_path_form drive_type (a ∷ b ∷ c ∷ rest) h =
    let (letter, colon, slash, drive) = facts (length rest) (drive_type (a ∷ 58 ∷ 92 ∷ [])) h in
    (a, c, rest, ap (λ (n : ℕ). a ∷ n ∷ c ∷ rest) colon, letter, slash, drive)
  where
    facts :
        (n d : ℕ)
        → (if ltb (suc (suc (suc n))) 3
              || not (leb 65 a && leb a 90 || leb 97 a && leb a 122)
              || not (b == 58)
              || not (c == 92) && not (c == 47)
            then false
            else d == 3 || d == 2 || d == 5 || d == 6)
          ≡ true
        → (((65 ≤ a) × (a ≤ 90)) ⊎ ((97 ≤ a) × (a ≤ 122)))
          × (b ≡ 58)
          × ((c ≡ 92) ⊎ (c ≡ 47))
          × ((d ≡ 2) ⊎ (d ≡ 3) ⊎ (d ≡ 5) ⊎ (d ≡ 6))
    facts n d e = ground arith

absolute_path_if :
    (drive_type : Text → ℕ) (path : Text)
    → IsLocalPath drive_type path
    → path_is_absolute_local drive_type path ≡ true
unfolding path_is_absolute_local
absolute_path_if drive_type path (letter, slash, rest, same, l, s, d) =
    subst (λ (t : Text). path_is_absolute_local drive_type t ≡ true) (sym same)
      (unfold path_is_absolute_local in ground (arith, l, s, d))

four :
    (arguments : List Text)
    → length arguments ≡ 4
    → arguments
      ≡ get_or arguments 0 []
        ∷ get_or arguments 1 []
        ∷ get_or arguments 2 []
        ∷ get_or arguments 3 []
        ∷ []
four [] h = absurd (omega (arith, h))
four (a ∷ []) h = absurd (omega (arith, h))
four (a ∷ b ∷ []) h = absurd (omega (arith, h))
four (a ∷ b ∷ c ∷ []) h = absurd (omega (arith, h))
four (a ∷ b ∷ c ∷ d ∷ []) h = refl
four (a ∷ b ∷ c ∷ d ∷ e ∷ rest) h = absurd (omega (arith, h))

six :
    (arguments : List Text)
    → length arguments ≡ 6
    → arguments
      ≡ get_or arguments 0 []
        ∷ get_or arguments 1 []
        ∷ get_or arguments 2 []
        ∷ get_or arguments 3 []
        ∷ get_or arguments 4 []
        ∷ get_or arguments 5 []
        ∷ []
six [] h = absurd (omega (arith, h))
six (a ∷ []) h = absurd (omega (arith, h))
six (a ∷ b ∷ []) h = absurd (omega (arith, h))
six (a ∷ b ∷ c ∷ []) h = absurd (omega (arith, h))
six (a ∷ b ∷ c ∷ d ∷ []) h = absurd (omega (arith, h))
six (a ∷ b ∷ c ∷ d ∷ e ∷ []) h = absurd (omega (arith, h))
six (a ∷ b ∷ c ∷ d ∷ e ∷ f ∷ []) h = refl
six (a ∷ b ∷ c ∷ d ∷ e ∷ f ∷ g ∷ rest) h = absurd (omega (arith, h))

module _ (drive_type : Text → ℕ) where
  -- What the tests behind the base grammar find.
  parse_operation-Accepts :
      (arguments : List Text) (r : ElevatedPluginRequest)
      → (length arguments ≡ 4) ⊎ (length arguments ≡ 6)
      → get_or arguments 0 [] ≡ operation_switch
      → get_or arguments 2 [] ≡ event_switch
      → IsEventName (get_or arguments 3 [])
      → parse_operation drive_type arguments empty_request ≡ (valid, r)
      → Accepts drive_type arguments r
  unfolding parse_operation
  parse_operation-Accepts arguments r size op ev name e =
      elim (Bool-cases (text_eq (get_or arguments 1 []) install_word)) [
        | inl installing ↦
            let word = text_eq_lem (get_or arguments 1 []) install_word installing in
            elim (Bool-cases (length arguments == 6)) [
              | inl long ↦
                  elim (Bool-cases (
                    not (text_eq (get_or arguments 4 []) path_switch)
                    || not (path_is_absolute_local drive_type (get_or arguments 5 [])))) [
                      | inl refused ↦
                          absurd (invalid_not_valid (rw (installing, long, refused) at e))
                      | inr fine ↦
                          let (switch, local) = both _ _ fine in
                          subst (Accepts drive_type arguments)
                            (ap (λ (p : ParseResult × ElevatedPluginRequest). p.1)
                              (rw (installing, long, fine) at e))
                            (subst
                              (λ (as' : List Text). Accepts drive_type as' (record empty_request {
                                operation = install;
                                simhub_install_path = get_or arguments 5 [];
                                manager_invocation_event = get_or arguments 3 [];
                              }))
                              (sym (
                                six arguments ((==_iff (length arguments) 6).0 long)
                                ∙ front op word ev (text_eq_lem _ path_switch switch)))
                              (installs_at _ _ name (absolute_path_form drive_type _ local)))
                    ]
              | inr short ↦
                  subst (Accepts drive_type arguments)
                    (ap (λ (p : ParseResult × ElevatedPluginRequest). p.1)
                      (rw (installing, short) at e))
                    (subst
                      (λ (as' : List Text). Accepts drive_type as' (record empty_request {
                        operation = install;
                        manager_invocation_event = get_or arguments 3 [];
                      }))
                      (sym (four arguments (not_six size short) ∙ front4 op word ev))
                      (installs _ name))
            ]
        | inr other ↦
            elim (Bool-cases
              (text_eq (get_or arguments 1 []) uninstall_word && length arguments == 4)) [
                | inr refused ↦ absurd (invalid_not_valid (rw (other, refused) at e))
                | inl fine ↦
                    let (word, short) = and_both _ _ fine in
                    subst (Accepts drive_type arguments)
                      (ap (λ (p : ParseResult × ElevatedPluginRequest). p.1)
                        (rw (other, fine) at e))
                      (subst
                        (λ (as' : List Text). Accepts drive_type as' (record empty_request {
                          operation = uninstall;
                          manager_invocation_event = get_or arguments 3 [];
                        }))
                        (sym (
                          four arguments ((==_iff (length arguments) 4).0 short)
                          ∙ front4 op (text_eq_lem _ uninstall_word word) ev))
                        (uninstalls _ name))
              ]
      ]
    where
      differ : invalid ≡ valid → ⊥
      differ k = cc

      invalid_not_valid :
          {q : ElevatedPluginRequest}
          → ◌≡◌ {A = ParseResult × ElevatedPluginRequest} (invalid, q) (valid, r)
          → ⊥
      invalid_not_valid h = differ (ap (λ (p : ParseResult × ElevatedPluginRequest). p.0) h)

      both : (a b : Bool) → (not a || not b) ≡ false → (a ≡ true) × (b ≡ true)
      both a b h = ground arith

      front :
          {a b c d x y z w f g : Text}
          → a ≡ x
          → b ≡ y
          → c ≡ z
          → d ≡ w
          → a ∷ b ∷ c ∷ f ∷ d ∷ g ∷ [] ≡ x ∷ y ∷ z ∷ f ∷ w ∷ g ∷ []
      front h k l m = rw (h, k, l, m) refl

      front4 :
          {a b c x y z f : Text} → a ≡ x → b ≡ y → c ≡ z → a ∷ b ∷ c ∷ f ∷ [] ≡ x ∷ y ∷ z ∷ f ∷ []
      front4 h k l = rw (h, k, l) refl

      not_six :
          (length arguments ≡ 4) ⊎ (length arguments ≡ 6)
          → (length arguments == 6) ≡ false
          → length arguments ≡ 4
      not_six h k = ground arith

  parse_request-Accepts :
      (arguments : List Text) (r : ElevatedPluginRequest)
      → get_or arguments 0 [] ≡ operation_switch
      → parse_request drive_type arguments ≡ (valid, r)
      → Accepts drive_type arguments r
  unfolding parse_request
  parse_request-Accepts arguments r op e =
      elim (Bool-cases (
        (length arguments == 4 || length arguments == 6)
        && text_eq (get_or arguments 2 []) event_switch
        && manager_invocation_event_name_is_valid (get_or arguments 3 []))) [
          | inr refused ↦
              absurd
                (differ (ap (λ (p : ParseResult × ElevatedPluginRequest). p.0) (rw refused at e)))
          | inl fine ↦
              let (front, name) = and_both _ _ fine in
              let (size, ev) = and_both _ _ front in
              parse_operation-Accepts arguments r (sizes (length arguments) size) op
                (text_eq_lem _ event_switch ev) (valid_name_form _ name) (rw fine at e)
        ]
    where
      differ : invalid ≡ valid → ⊥
      differ k = cc

      sizes : (n : ℕ) → (n == 4 || n == 6) ≡ true → (n ≡ 4) ⊎ (n ≡ 6)
      sizes n h = ground arith

  parsed-Accepts :
      (arguments : List Text) (before r : ElevatedPluginRequest)
      → parse_elevated_plugin_request drive_type arguments (some before) ≡ (valid, some r)
      → Accepts drive_type arguments r
  unfolding parse_elevated_plugin_request parse_into
  parsed-Accepts arguments before r e =
      elim (Bool-cases
        (length arguments == 0 || not (text_eq (get_or arguments 0 []) operation_switch))) [
          | inl refused ↦ absurd (
              differ
                (ap (λ (p : ParseResult × Option ElevatedPluginRequest). p.0) (rw refused at e)))
          | inr fine ↦
              let found : ◌≡◌ {A = ParseResult × Option ElevatedPluginRequest}
                  (
                    (parse_request drive_type arguments).0,
                    some (parse_request drive_type arguments).1,
                  )
                  (valid, some r) =
                rw fine at e in
              parse_request-Accepts arguments r (text_eq_lem _ operation_switch (switch _ _ fine)) (
                pair (parse_request drive_type arguments)
                  (ap (λ (p : ParseResult × Option ElevatedPluginRequest). p.0) found)
                  (some_inj _ (ap (λ (p : ParseResult × Option ElevatedPluginRequest). p.1) found)))
        ]
    where
      differ : not_requested ≡ valid → ⊥
      differ k = cc

      switch : (a b : Bool) → (a || not b) ≡ false → b ≡ true
      switch a b h = ground arith

      some_inj : (q : ElevatedPluginRequest) → some q ≡ some r → q ≡ r
      some_inj q h = cc

      pair : (p : ParseResult × ElevatedPluginRequest) → p.0 ≡ valid → p.1 ≡ r → p ≡ (valid, r)
      pair (a, b) h k = rw (h, k) refl

  Accepts-parsed :
      (arguments : List Text) (before r : ElevatedPluginRequest)
      → Accepts drive_type arguments r
      → parse_elevated_plugin_request drive_type arguments (some before) ≡ (valid, some r)
  unfolding parse_elevated_plugin_request parse_into parse_request parse_operation text_eq
  Accepts-parsed _ before _ (installs event name) = rw (valid_name_if event name) refl
  Accepts-parsed _ before _ (installs_at event path name local) =
      rw (valid_name_if event name, absolute_path_if drive_type path local) refl
  Accepts-parsed _ before _ (uninstalls event name) = rw (valid_name_if event name) refl

-- The parser's result is valid, with a request, exactly for the command lines that ask for it: the
-- four arguments of an installation or of a removal, or the six of an installation at a path, in
-- their order, with the name of an event of the manager and, if there is a path, an absolute one on
-- a local drive. (The pointer to the request is not null.)
pub parse_elevated_plugin_request-Accepts :
    (drive_type : Text → ℕ) (arguments : List Text) (before request : ElevatedPluginRequest)
    → (parse_elevated_plugin_request drive_type arguments (some before) ≡ (valid, some request))
      ↔ Accepts drive_type arguments request
parse_elevated_plugin_request-Accepts drive_type arguments before request = (
  parsed-Accepts drive_type arguments before request,
  Accepts-parsed drive_type arguments before request,
)
