-- ===== src/Manager/Environment/Block.antt =====
-- The block that build_sanitized_powershell_environment of launcher/manager_model.cpp writes, and a
-- reader of such blocks.
use ffb_interceptor_visualiz.Common.{
  ◌≤◌, ◌≡◌, refl, ap, ◌∙◌, subst, Bool, true, false, ◌||◌, List, [], ◌∷◌, ◌++◌, Option, none, some,
  ltb, ◌==◌, if◌then◌else◌, length, All, arith, Bool-cases, Option-cases, inl, inr, append-nil,
  append_assoc, length-append,
}
use ffb_interceptor_visualiz.Manager.Elevated.{Text}
use ffb_interceptor_visualiz.Manager.Paths.{is_empty, contains}
use ffb_interceptor_visualiz.Manager.Environment.{
  Variables, set_value, add_environment_value, continue_on, add_all, add_optional, profile_folder,
  local_app_data_folder, program_data_folder, program_files_folder, Windows, with_text,
  get_known_folder_path, get_windows_directory_path, locate_system_windows_powershell, fixed_values,
  add_optionals, folder_values, home_values, sanitized_values, write_values, required_size,
  write_block, build_sanitized_powershell_environment,
}

abbrev onto_values : Text × Text → Option Variables → Option Variables
onto_values v none = none
onto_values v (some values) = some (v ∷ values)

abbrev at_end : Text → Option Variables
at_end [] = some []
at_end (c ∷ cs) = none

-- A reader of an environment block, as Windows documents them: texts that end with a NUL, each with
-- a name before its first `=`, up to an empty one. It holds the name so far and, behind the `=`,
-- the value so far.
unfoldable pub read_block : (block name : Text) → (value : Option Text) → Option Variables
read_block [] name value = none
read_block (c ∷ cs) name none = elim (c == 0) [
  | true ↦ if is_empty name then at_end cs else none
  | false ↦ elim (c == 61) [
    | true ↦ read_block cs name (some [])
    | false ↦ read_block cs (name ++ c ∷ []) none
  ]
]
read_block (c ∷ cs) name (some value) = elim (c == 0) [
  | true ↦ onto_values (name, value) (read_block cs [] none)
  | false ↦ read_block cs name (some (value ++ c ∷ []))
]

abbrev pub IsVariable : Text × Text → Type 0
IsVariable (name, value) =
    (is_empty name ≡ false)
    × (contains 61 name ≡ false)
    × (contains 0 name ≡ false)
    × (is_empty value ≡ false)
    × (contains 0 value ≡ false)

none_not_some : (values : Variables) → none ≡ some values → ⊥
none_not_some values e = cc

some_inj : (a b : Variables) → some a ≡ some b → a ≡ b
some_inj a b e = cc

or_both : (a b : Bool) → (a || b) ≡ false → (a ≡ false) × (b ≡ false)
or_both true b h = cc
or_both false b h = (refl, h)

read_block-value :
    (value rest name front : Text)
    → contains 0 value ≡ false
    → read_block (value ++ 0 ∷ rest) name (some front)
      ≡ onto_values (name, front ++ value) (read_block rest [] none)
unfolding read_block contains
read_block-value [] rest name front h = rw (append-nil front) refl
read_block-value (c ∷ cs) rest name front h =
    let (other, more) = or_both (c == 0) (contains 0 cs) h in
    rw (read_block, other)
      (read_block-value cs rest name (front ++ c ∷ []) more
        ∙ ap (λ (t : Text). onto_values (name, t) (read_block rest [] none))
            (append_assoc front (c ∷ []) cs))

read_block-name :
    (name rest front : Text)
    → contains 61 name ≡ false
    → contains 0 name ≡ false
    → read_block (name ++ 61 ∷ rest) front none ≡ read_block rest (front ++ name) (some [])
unfolding read_block contains
read_block-name [] rest front h k = rw (append-nil front) refl
read_block-name (c ∷ cs) rest front h k =
    let (no_equals, no_more) = or_both (c == 61) (contains 61 cs) h in
    let (no_end, no_ends) = or_both (c == 0) (contains 0 cs) k in
    rw (read_block, no_end, no_equals)
      (read_block-name cs rest (front ++ c ∷ []) no_more no_ends
        ∙ ap (λ (t : Text). read_block rest t (some [])) (append_assoc front (c ∷ []) cs))

read_block-write_values :
    (values : Variables)
    → All IsVariable values
    → read_block (write_values values ++ 0 ∷ []) [] none ≡ some values
unfolding write_values read_block
read_block-write_values [] h = refl
read_block-write_values ((name, value) ∷ values)
      ((given, no_equals, no_end, has_value, no_value_end), h) =
    rw
      (
        append_assoc name (61 ∷ (value ++ 0 ∷ write_values values)) (0 ∷ []),
        append_assoc value (0 ∷ write_values values) (0 ∷ []),
      )
      (read_block-name name (value ++ 0 ∷ (write_values values ++ 0 ∷ [])) [] no_equals no_end
        ∙ read_block-value value (write_values values ++ 0 ∷ []) name [] no_value_end
        ∙ ap (onto_values (name, value)) (read_block-write_values values h))

set_value-IsVariable :
    (less : Text → Text → Bool) (name value : Text) (values : Variables)
    → IsVariable (name, value)
    → All IsVariable values
    → All IsVariable (set_value less name value values)
unfolding set_value
set_value-IsVariable less name value [] v h = (v, tt)
set_value-IsVariable less name value ((n, old) ∷ values) v h = elim (Bool-cases (less name n)) [
  | inl before ↦ rw before (v, h)
  | inr other ↦ elim (Bool-cases (less n name)) [
    | inl behind ↦ rw (other, behind) (h.0, set_value-IsVariable less name value values v h.1)
    | inr same ↦
        let (given, no_equals, no_end, old_value, old_end) = h.0 in
        let (new_given, new_equals, new_end, has_value, no_value_end) = v in
        rw (other, same) ((given, no_equals, no_end, has_value, no_value_end), h.1)
  ]
]

-- A call either adds a variable, or fails.
add_environment_value-IsVariable :
    (less : Text → Text → Bool) (name value : Text) (values added : Variables)
    → add_environment_value less name value values ≡ some added
    → All IsVariable values
    → All IsVariable added
unfolding add_environment_value
add_environment_value-IsVariable less name value values added e h =
    elim (Bool-cases (
      is_empty name || is_empty value || contains 61 name || contains 0 name || contains 0 value)) [
        | inl refused ↦ absurd (none_not_some added (rw refused at e))
        | inr fine ↦
            let (fine4, no_value_end) = or_both _ (contains 0 value) fine in
            let (fine3, no_end) = or_both _ (contains 0 name) fine4 in
            let (fine2, no_equals) = or_both _ (contains 61 name) fine3 in
            let (given, has_value) = or_both (is_empty name) (is_empty value) fine2 in
            subst (All IsVariable)
              (some_inj (set_value less name value values) added (rw fine at e))
              (set_value-IsVariable less name value values
                (given, no_equals, no_end, has_value, no_value_end) h)
      ]

size_lem : (values : Variables) → length (write_values values ++ 0 ∷ []) ≡ required_size values
unfolding write_values required_size
size_lem [] = refl
size_lem ((name, value) ∷ values) = omega (
  arith,
  size_lem values,
  length-append (name ++ 61 ∷ (value ++ 0 ∷ write_values values)) (0 ∷ []),
  length-append name (61 ∷ (value ++ 0 ∷ write_values values)),
  length-append value (0 ∷ write_values values),
  length-append (write_values values) (0 ∷ []),
)

-- Any variables that the calls leave are such.
AreVariables : Option Variables → Type 0
AreVariables none = Unit {0}
AreVariables (some values) = All IsVariable values

add_environment_value-AreVariables :
    (less : Text → Text → Bool) (name value : Text) (values : Variables)
    → All IsVariable values
    → AreVariables (add_environment_value less name value values)
unfolding AreVariables
add_environment_value-AreVariables less name value values h =
    elim (Option-cases (add_environment_value less name value values)) [
      | inl refused ↦ rw refused tt
      | inr (added, e) ↦ rw e (add_environment_value-IsVariable less name value values added e h)
    ]

continue_on-AreVariables :
    (o : Option Variables) (next : Variables → Option Variables)
    → AreVariables o
    → ((values : Variables) → All IsVariable values → AreVariables (next values))
    → AreVariables (continue_on o next)
unfolding AreVariables
continue_on-AreVariables none next h k = tt
continue_on-AreVariables (some values) next h k = k values h

add_all-AreVariables :
    (less : Text → Text → Bool) (more : List (Text × Text)) (values : Variables)
    → All IsVariable values
    → AreVariables (add_all less more values)
unfolding add_all AreVariables
add_all-AreVariables less [] values h = h
add_all-AreVariables less ((name, value) ∷ more) values h =
    continue_on-AreVariables (add_environment_value less name value values) (add_all less more)
      (add_environment_value-AreVariables less name value values h) (add_all-AreVariables less more)

add_optional-IsVariable :
    (less : Text → Text → Bool) (name : Text) (o : Option Text) (values : Variables)
    → All IsVariable values
    → All IsVariable (add_optional less name o values)
unfolding add_optional
add_optional-IsVariable less name none values h = h
add_optional-IsVariable less name (some value) values h =
    elim (Option-cases (add_environment_value less name value values)) [
      | inl refused ↦ rw refused h
      | inr (added, e) ↦ rw e (add_environment_value-IsVariable less name value values added e h)
    ]

with_text-AreVariables :
    (o : Option Text) (next : Text → Option Variables)
    → ((text : Text) → AreVariables (next text))
    → AreVariables (with_text o next)
unfolding AreVariables
with_text-AreVariables none next h = tt
with_text-AreVariables (some text) next h = h text

if-AreVariables :
    (b : Bool) (o : Option Variables) → AreVariables o → AreVariables (if b then none else o)
unfolding AreVariables
if-AreVariables true o h = tt
if-AreVariables false o h = h

module _ (w : Windows) where
  add_optionals-AreVariables :
      (values : Variables) → All IsVariable values → AreVariables (some (add_optionals w values))
  unfolding AreVariables
  add_optionals-AreVariables values h =
      add_optional-IsVariable w.less _ _ _
        (add_optional-IsVariable w.less _ _ _ (add_optional-IsVariable w.less _ _ values h))

  folder_values-AreVariables :
      (home system windows : Text) → AreVariables (folder_values w home system windows)
  folder_values-AreVariables home system windows =
      with_text-AreVariables (get_known_folder_path w profile_folder) _ λ profile.
        with_text-AreVariables (get_known_folder_path w local_app_data_folder) _ λ local_app_data.
          with_text-AreVariables (get_known_folder_path w program_data_folder) _ λ program_data.
            with_text-AreVariables (get_known_folder_path w program_files_folder) _ λ program_files.
              continue_on-AreVariables
                (add_all w.less
                  (fixed_values w home system windows profile local_app_data program_data
                    program_files)
                  [])
                (λ values. some (add_optionals w values)) (add_all-AreVariables w.less _ [] tt)
                add_optionals-AreVariables

  home_values-AreVariables : (home system : Text) → AreVariables (home_values w home system)
  home_values-AreVariables home system = if-AreVariables (is_empty home || is_empty system) _ (
      with_text-AreVariables (get_windows_directory_path w) _
        λ windows. if-AreVariables _ _ (folder_values-AreVariables home system windows))

  sanitized_values-AreVariables :
      (power_shell : Text) → AreVariables (sanitized_values w power_shell)
  unfolding sanitized_values
  sanitized_values-AreVariables power_shell =
      with_text-AreVariables (locate_system_windows_powershell w) _
        λ verified. if-AreVariables _ _ (home_values-AreVariables _ _)

  write_block_lem :
      (o : Option Variables) (block : Text)
      → AreVariables o
      → write_block o ≡ some block
      → (values : Variables) × (o ≡ some values)
        × (read_block block [] none ≡ some values)
        × (length block ≤ 32767)
  unfolding AreVariables
  write_block_lem none block h e = absurd (refused e)
    where
      refused : none ≡ some block → ⊥
      refused k = cc
  write_block_lem (some values) block h e = elim (Bool-cases (ltb 32767 (required_size values))) [
    | inl large ↦ absurd (refused (rw large at e))
    | inr fits ↦
        let same = written (rw fits at e) in
        (
          values,
          refl,
          subst (λ (t : Text). read_block t [] none ≡ some values) same
              (read_block-write_values values h),
          subst (λ (t : Text). length t ≤ 32767) same (small fits),
        )
  ]
    where
      refused : none ≡ some block → ⊥
      refused k = cc

      written :
          some (write_values values ++ 0 ∷ []) ≡ some block → write_values values ++ 0 ∷ [] ≡ block
      written k = cc

      small :
          ltb 32767 (required_size values) ≡ false → length (write_values values ++ 0 ∷ []) ≤ 32767
      small k = ground (arith, size_lem values)

  -- Where build_sanitized_powershell_environment returns true, the block has at most 32767
  -- characters, and a reader that follows the documented form of environment blocks takes from it
  -- the variables that were put together, with their names and values and in their order, and
  -- nothing else.
  pub build_sanitized_powershell_environment-reads :
      (power_shell block : Text)
      → build_sanitized_powershell_environment w power_shell ≡ some block
      → (values : Variables) × (sanitized_values w power_shell ≡ some values)
        × (read_block block [] none ≡ some values)
        × (length block ≤ 32767)
  unfolding build_sanitized_powershell_environment
  build_sanitized_powershell_environment-reads power_shell block e =
      write_block_lem (sanitized_values w power_shell) block
        (sanitized_values-AreVariables power_shell) e
