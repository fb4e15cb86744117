-- ===== src/Manager/Elevated/Runs.antt =====
-- Elevated requests at concrete arguments.
use ffb_interceptor_visualiz.Common.{ℕ, ◌≡◌, ◌↔◌, refl, some, List, [], ◌∷◌, ◌++◌, replicate}
use ffb_interceptor_visualiz.Manager.Elevated.{
  Text, event_prefix, operation_switch, event_switch, path_switch, install_word, install,
  ElevatedPluginRequest, manager_invocation_event_name_is_valid, path_is_absolute_local,
  parse_request, parse_operation, parse_into, text_eq, empty_request, valid,
  parse_elevated_plugin_request,
}
use ffb_interceptor_visualiz.Manager.Elevated.Grammar.{
  Accepts, parse_elevated_plugin_request-Accepts,
}

-- Every drive is a fixed one.
abbrev fixed_drives : Text → ℕ
fixed_drives root = 3

-- To install at C:\S.
abbrev install_request : ElevatedPluginRequest
install_request = record {
  operation = install;
  manager_invocation_event = event_prefix ++ replicate 64 65;
  simhub_install_path = 67 ∷ 58 ∷ 92 ∷ 83 ∷ [];
}

abbrev install_arguments : List Text
install_arguments =
    operation_switch
    ∷ install_word
    ∷ event_switch
    ∷ (event_prefix ++ replicate 64 65)
    ∷ path_switch
    ∷ (67 ∷ 58 ∷ 92 ∷ 83 ∷ [])
    ∷ []

install_parsed :
    parse_elevated_plugin_request fixed_drives install_arguments (some empty_request)
    ≡ (valid, some install_request)
unfolding parse_elevated_plugin_request parse_into parse_request parse_operation
    manager_invocation_event_name_is_valid path_is_absolute_local text_eq
install_parsed = refl

parse_elevated_plugin_request-Accepts_example :
    (parse_elevated_plugin_request fixed_drives install_arguments (some empty_request)
      ≡ (valid, some install_request))
    ↔ Accepts fixed_drives install_arguments install_request
parse_elevated_plugin_request-Accepts_example =
    parse_elevated_plugin_request-Accepts fixed_drives install_arguments empty_request
      install_request
