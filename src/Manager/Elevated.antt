-- ===== src/Manager/Elevated.antt =====
-- The command line of the elevated helper: manager_invocation_event_name_is_valid,
-- path_is_absolute_local and parse_elevated_plugin_request of launcher/manager_model.cpp. A wide
-- string is the list of its character codes.
pub mod Grammar
mod Runs
use ffb_interceptor_visualiz.Common.{
  ℕ, zero, suc, ◌+◌, Bool, true, false, ◌&&◌, ◌||◌, not, List, [], ◌∷◌, ◌++◌, Option, none, some,
  leb, ltb, ◌==◌, if◌then◌else◌, length, get_or, take, drop, all,
}

abbrev pub Text : Type 0
Text = List ℕ

-- --elevated-plugin-op
abbrev pub operation_switch : Text
operation_switch =
    45 ∷ 45 ∷ 101 ∷ 108 ∷ 101 ∷ 118 ∷ 97 ∷ 116 ∷ 101 ∷ 100 ∷ 45 ∷ 112 ∷ 108 ∷ 117 ∷ 103 ∷ 105 ∷ 110
    ∷ 45 ∷ 111 ∷ 112 ∷ []

-- --manager-invocation-event
abbrev pub event_switch : Text
event_switch =
    45 ∷ 45 ∷ 109 ∷ 97 ∷ 110 ∷ 97 ∷ 103 ∷ 101 ∷ 114 ∷ 45 ∷ 105 ∷ 110 ∷ 118 ∷ 111 ∷ 99 ∷ 97 ∷ 116
    ∷ 105 ∷ 111 ∷ 110 ∷ 45 ∷ 101 ∷ 118 ∷ 101 ∷ 110 ∷ 116 ∷ []

-- --simhub-install-path
abbrev pub path_switch : Text
path_switch =
    45 ∷ 45 ∷ 115 ∷ 105 ∷ 109 ∷ 104 ∷ 117 ∷ 98 ∷ 45 ∷ 105 ∷ 110 ∷ 115 ∷ 116 ∷ 97 ∷ 108 ∷ 108 ∷ 45
    ∷ 112 ∷ 97 ∷ 116 ∷ 104 ∷ []

-- Local\FFBInterceptor.ManagerElevation.v1.
abbrev pub event_prefix : Text
event_prefix =
    76 ∷ 111 ∷ 99 ∷ 97 ∷ 108 ∷ 92 ∷ 70 ∷ 70 ∷ 66 ∷ 73 ∷ 110 ∷ 116 ∷ 101 ∷ 114 ∷ 99 ∷ 101 ∷ 112 ∷ 116
    ∷ 111 ∷ 114 ∷ 46 ∷ 77 ∷ 97 ∷ 110 ∷ 97 ∷ 103 ∷ 101 ∷ 114 ∷ 69 ∷ 108 ∷ 101 ∷ 118 ∷ 97 ∷ 116 ∷ 105
    ∷ 111 ∷ 110 ∷ 46 ∷ 118 ∷ 49 ∷ 46 ∷ []

-- install
abbrev pub install_word : Text
install_word = 105 ∷ 110 ∷ 115 ∷ 116 ∷ 97 ∷ 108 ∷ 108 ∷ []

-- uninstall
abbrev pub uninstall_word : Text
uninstall_word = 117 ∷ 110 ∷ 105 ∷ 110 ∷ 115 ∷ 116 ∷ 97 ∷ 108 ∷ 108 ∷ []

unfoldable pub text_eq : Text → Text → Bool
text_eq [] [] = true
text_eq (x ∷ xs) (y ∷ ys) = let rest = text_eq xs ys in x == y && rest
text_eq _ _ = false

-- 0 to 9 and A to F
abbrev pub is_hex_digit : ℕ → Bool
is_hex_digit c = leb 48 c && leb c 57 || leb 65 c && leb c 70

unfoldable pub manager_invocation_event_name_is_valid : Text → Bool
manager_invocation_event_name_is_valid name =
    if not (length name == length event_prefix + 64)
      || not (text_eq (take (length event_prefix) name) event_prefix)
    then false
    else all is_hex_digit (drop (length event_prefix) name)

pub data Operation : Type 0 where
  install uninstall : Operation

pub record ElevatedPluginRequest : Type 0 where
  pub operation : Operation
  pub manager_invocation_event : Text
  pub simhub_install_path : Text

abbrev pub empty_request : ElevatedPluginRequest
empty_request = record {
  operation = install;
  manager_invocation_event = [];
  simhub_install_path = [];
}

pub data ParseResult : Type 0 where
  not_requested valid invalid : ParseResult

-- GetDriveTypeW is the argument `drive_type`; its values are the documented ones of removable (2),
-- fixed (3), optical (5) and memory (6) drives.
unfoldable pub path_is_absolute_local : (Text → ℕ) → Text → Bool
path_is_absolute_local drive_type path =
    let letter = get_or path 0 0 in
    let drive = drive_type (letter ∷ 58 ∷ 92 ∷ []) in
    if ltb (length path) 3
      || not (leb 65 letter && leb letter 90 || leb 97 letter && leb letter 122)
      || not (get_or path 1 0 == 58)
      || not (get_or path 2 0 == 92) && not (get_or path 2 0 == 47)
    then false
    else drive == 3 || drive == 2 || drive == 5 || drive == 6

-- The operation, once the grammar of the first four arguments has been accepted.
unfoldable pub parse_operation :
    (Text → ℕ) → List Text → ElevatedPluginRequest → ParseResult × ElevatedPluginRequest
parse_operation drive_type arguments request =
    let argument = λ (i : ℕ). get_or arguments i [] in
    let event = argument 3 in
    if text_eq (argument 1) install_word
    then (if length arguments == 6
        then (if not (text_eq (argument 4) path_switch)
              || not (path_is_absolute_local drive_type (argument 5))
            then (invalid, record request { operation = install })
            else (
              valid,
              record request {
                operation = install;
                simhub_install_path = argument 5;
                manager_invocation_event = event;
              },
            ))
        else (valid, record request { operation = install; manager_invocation_event = event }))
    else if text_eq (argument 1) uninstall_word && length arguments == 4
    then (valid, record request { operation = uninstall; manager_invocation_event = event })
    else (invalid, request)

unfoldable pub parse_request : (Text → ℕ) → List Text → ParseResult × ElevatedPluginRequest
parse_request drive_type arguments =
    let argument = λ (i : ℕ). get_or arguments i [] in
    if (length arguments == 4 || length arguments == 6)
      && text_eq (argument 2) event_switch
      && manager_invocation_event_name_is_valid (argument 3)
    then parse_operation drive_type arguments empty_request
    else (invalid, empty_request)

unfoldable pub parse_into :
    (Text → ℕ)
    → List Text
    → Option ElevatedPluginRequest
    → ParseResult × Option ElevatedPluginRequest
unfolding parse_request
parse_into drive_type arguments none = (invalid, none)
parse_into drive_type arguments (some request) =
    let (result, parsed) = parse_request drive_type arguments in (result, some parsed)

-- The result and what `request` points to; it is `none` if it is a null pointer.
unfoldable pub parse_elevated_plugin_request :
    (Text → ℕ)
    → List Text
    → Option ElevatedPluginRequest
    → ParseResult × Option ElevatedPluginRequest
unfolding parse_into
parse_elevated_plugin_request drive_type arguments request =
    if length arguments == 0 || not (text_eq (get_or arguments 0 []) operation_switch)
    then (not_requested, request)
    else parse_into drive_type arguments request
