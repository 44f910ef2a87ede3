-- ===== src/Tests/Options.antt =====
-- The static map and the command line at concrete inputs.
use mathlib.Core.List.Permᴰ
use mydak_server.Base.{
  word, ◌<◌, ℕ, ◌≡◌, ◌≢◌, refl, List, [], ◌∷◌, ◌++◌, Bool, some, arith, Bytes, All, bytes_eq, find,
  modify, true, get_elem?,
}
use mydak_server.StaticMap.Indices.{index_maps_agree}
use mydak_server.StaticMap.{
  index_map_template, consteval_at, static_string, at, static_map, indices_from, lower_bound, less,
  insert, if_key, index_static_map,
}
use mydak_server.ParameterText.{Exit, not_in_bounds, text_limits}
use mydak_server.Parameters.Refusals.{Refusal, process_args-exits}
use mydak_server.StaticMap.Sorted.{
  IsSortOf, IsDistinct, at-IsSortOf, static_map-IsSorted, static_map-Perm,
}
use mydak_server.ParameterTable.{
  ParameterVariants, string_parameter, loopback, username, password, db_hostname, db_username,
  parameters, options, NumberBase,
}
use mydak_server.Parameters.{
  returns, exits, process_arg, set_option, visit_at, split_at_equals, process_args, process_from,
  try_set_val, try_set_val_internal, is_in_limits,
}
use mydak_server.Decimal.{pos}
use mydak_server.Database.Setup.{Connector}
use mydak_server.Server.{Server}
use mydak_server.Hash.{hasher}
use mydak_server.Hash.Last.{hasher-append}
use mydak_server.Tests.Memory.{memory, no_rows}
use mydak_server.Parameters.Access.{Value, get, get_data}
use mydak_server.Parameters.Typing.{get-process_args}
use mydak_server.Parameters.Limits.{IsProper, process_args-IsProper}
use mydak_server.Parameters.Overrides.{process_args-append}

abbrev pairs : List (Bytes × ℕ)
pairs = (db_username, 5) ∷ (db_hostname, 6) ∷ []

abbrev sorted_pairs : List (Bytes × ℕ)
sorted_pairs = (db_hostname, 6) ∷ (db_username, 5) ∷ []

at-IsSortOf_example :
    (at db_hostname sorted_pairs ≡ find db_hostname pairs) × IsSortOf pairs (static_map pairs)
unfolding find bytes_eq less
at-IsSortOf_example =
    at-IsSortOf db_hostname pairs sorted_pairs (refl, (refl, tt))
      (((refl, tt), (tt, tt)), Permᴰ.swap refl refl)

-- The only address is 127.0.0.1.
abbrev pub is_loopback : Bytes → Bool
is_loopback t = bytes_eq t loopback

loopback_is : is_loopback loopback ≡ true
unfolding bytes_eq
loopback_is = refl

pub no_arguments : process_args is_loopback [] ≡ returns parameters
unfolding process_args process_from
no_arguments = refl

process_args-IsProper_example : All (IsProper is_loopback) parameters
process_args-IsProper_example =
    process_args-IsProper is_loopback [] parameters loopback_is no_arguments

db_username_plain : All (λ (c : ℕ). c ≢ 61) db_username
db_username_plain = omega arith

db_username_known : find db_username (indices_from 0 options) ≡ some 1
unfolding find bytes_eq indices_from options
db_username_known = refl

there :
    get_elem? parameters 1 ≡ some (string_parameter (record { text = username; min = 4; max = 64 }))
unfolding parameters
there = refl

abbrev changed : ParameterVariants
changed = string_parameter (record { text = password; min = 4; max = 64 })

fits :
    try_set_val is_loopback
      (string_parameter (record { text = username; min = 4; max = 64 }))
      password
    ≡ returns changed
unfolding try_set_val try_set_val_internal is_in_limits
fits = refl

process_args-append_example :
    process_args is_loopback ((db_username ++ 61 ∷ password) ∷ [])
    ≡ returns (modify (λ _. changed) parameters 1)
process_args-append_example =
    process_args-append is_loopback [] 1 db_username password
      (string_parameter (record { text = username; min = 4; max = 64 })) changed parameters
      (omega arith) db_username_plain db_username_known no_arguments there (omega arith) fits

abbrev small_number : NumberBase
small_number = record { number = pos 0; min = pos 1; max = pos 100 }

get-process_args_example :
    (p : ParameterVariants) × (text : Bytes) × (get_elem? parameters 1 ≡ some p)
    × (get db_username parameters ≡ some (get_data p))
    × (get_data p ≡ Value.text_value text)
get-process_args_example =
    get-process_args is_loopback [] parameters db_username 1 no_arguments db_username_known

-- A MariaDB server that takes every user and has the tables.
abbrev pub local : Connector memory
local = record {
  connect = λ hostname username password. some no_rows;
  prepare = λ request tables. some tables;
}

hasher-append_example :
    (hasher (λ c. c) (1 ∷ 2 ∷ [] ++ 3 ∷ []) < word)
    × (hasher (λ c. c) (1 ∷ 2 ∷ [] ++ 3 ∷ []) ≢ hasher (λ c. c) (1 ∷ 2 ∷ [] ++ 4 ∷ []))
hasher-append_example =
    hasher-append (λ c. c) (1 ∷ 2 ∷ []) 3 4 (omega arith) (omega arith) (omega arith)

-- "--db-username=abc"
abbrev too_short : Bytes
too_short = db_username ++ 61 ∷ 97 ∷ 98 ∷ 99 ∷ []

-- "abc is not in bounds: from 4 to 64!"
abbrev complaint : Exit
complaint =
    not_in_bounds (97 ∷ 98 ∷ 99 ∷ []) (text_limits (record { text = username; min = 4; max = 64 }))

refused : process_args is_loopback (too_short ∷ []) ≡ exits complaint
unfolding process_args process_from process_arg set_option visit_at try_set_val try_set_val_internal
    is_in_limits split_at_equals bytes_eq at lower_bound less static_map insert if_key
    index_static_map indices_from options parameters
refused = refl

process_args-exits_example :
    (before : List Bytes) × (raw : Bytes) × (after : List Bytes) × (ps : List ParameterVariants)
    × (too_short ∷ [] ≡ before ++ raw ∷ after)
    × (process_args is_loopback before ≡ returns ps)
    × Refusal is_loopback raw ps complaint
process_args-exits_example = process_args-exits is_loopback (too_short ∷ []) complaint refused

options-IsDistinct : IsDistinct (indices_from 0 options)
unfolding find bytes_eq indices_from options
options-IsDistinct = (refl, (refl, (refl, tt)))

options_sorted : IsSortOf (indices_from 0 options) (index_static_map options)
unfolding index_static_map
options_sorted =
    (static_map-IsSorted (indices_from 0 options), static_map-Perm (indices_from 0 options))

index_maps_agree_example :
    (find db_hostname (index_map_template options) ≡ at db_hostname (index_static_map options))
    × (consteval_at (static_string db_hostname) (index_static_map options)
        ≡ find db_hostname (index_map_template options))
    × IsSortOf (indices_from 0 options) (index_static_map options)
index_maps_agree_example =
    index_maps_agree db_hostname options (index_static_map options) options-IsDistinct
      options_sorted
