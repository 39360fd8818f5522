-- ===== src/Errors/Sqlstate.antt =====
-- map_sqlstate (components/database/providers/postgresql/errors/detail/sqlstate_mapping.inl).
use demiplane.Prelude.{Option, none, some, [], ◌∷◌, Text, codes, if◌then◌else◌}
use demiplane.Prelude.Texts.{same_text}
use demiplane.Errors.{
  ErrorCode, from_client, from_server, from_fatal, unexpected_state, authentication_error,
  check_violation, configuration_error, constraint_violation, data_error, database_not_found,
  invalid_argument, invalid_option, invalid_state, object_not_found, runtime_error,
  schema_not_found, transaction_error,
}
use demiplane.Errors.Classes.{
  class_08, class_22, class_23, class_25, class_40, class_42, class_53, class_54, class_55,
  class_57, class_58, class_p0, class_xx,
}

-- `sqlstate.substr(0, 2)`.
unfoldable pub error_class : Text → Text
error_class [] = []
error_class (c ∷ []) = c ∷ []
error_class (c ∷ d ∷ rest) = c ∷ d ∷ []

-- What the class of the code, its first two bytes, decides; `none` is success.
unfoldable pub map_class : Text → Text → Option ErrorCode
unfolding same_text codes class_08 class_22 class_23 class_25 class_40 class_42 class_53 class_54
    class_55 class_57 class_58 class_p0 class_xx
map_class class sqlstate =
    if same_text class (codes "00")
    then none
    else if same_text class (codes "08")
    then class_08 sqlstate
    else if same_text class (codes "0A")
    then some (from_client invalid_option)
    else if same_text class (codes "20")
    then some (from_server object_not_found)
    else if same_text class (codes "21")
    then some (from_server data_error)
    else if same_text class (codes "22")
    then class_22 sqlstate
    else if same_text class (codes "23")
    then class_23 sqlstate
    else if same_text class (codes "24")
    then some (from_client invalid_state)
    else if same_text class (codes "25")
    then class_25 sqlstate
    else if same_text class (codes "26")
    then some (from_client invalid_argument)
    else if same_text class (codes "28")
    then some (from_client authentication_error)
    else if same_text class (codes "2B")
    then some (from_server constraint_violation)
    else if same_text class (codes "2D")
    then some (from_server transaction_error)
    else if same_text class (codes "2F")
    then some (from_server runtime_error)
    else if same_text class (codes "34")
    then some (from_client invalid_argument)
    else if same_text class (codes "38")
    then some (from_server runtime_error)
    else if same_text class (codes "39")
    then some (from_server runtime_error)
    else if same_text class (codes "3B")
    then some (from_server transaction_error)
    else if same_text class (codes "3D")
    then some (from_server database_not_found)
    else if same_text class (codes "3F")
    then some (from_server schema_not_found)
    else if same_text class (codes "40")
    then class_40 sqlstate
    else if same_text class (codes "42")
    then class_42 sqlstate
    else if same_text class (codes "44")
    then some (from_server check_violation)
    else if same_text class (codes "53")
    then class_53 sqlstate
    else if same_text class (codes "54")
    then class_54 sqlstate
    else if same_text class (codes "55")
    then class_55 sqlstate
    else if same_text class (codes "57")
    then class_57 sqlstate
    else if same_text class (codes "58")
    then class_58 sqlstate
    else if same_text class (codes "F0")
    then some (from_client configuration_error)
    else if same_text class (codes "HV")
    then some (from_server runtime_error)
    else if same_text class (codes "P0")
    then class_p0 sqlstate
    else if same_text class (codes "XX")
    then class_xx sqlstate
    else some (from_fatal unexpected_state)

unfoldable pub map_sqlstate : Text → Option ErrorCode
unfolding map_class error_class same_text codes
map_sqlstate [] = none
map_sqlstate (c ∷ cs) =
    if same_text (c ∷ cs) (codes "00000") then none else map_class (error_class (c ∷ cs)) (c ∷ cs)
