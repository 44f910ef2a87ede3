-- ===== src/ParameterTable.antt =====
-- The table of options of core/parameters: parameters_base.hpp and parameters.hpp, from the types of
-- the parameters to `tuple_boy`. Text is a list of bytes.
use mydak_server.Base.{ℕ, List, [], ◌∷◌, Bytes, map}
use mydak_server.Decimal.{ℤ}

-- `parameter_base<std::string_view, uint32_t>`
pub record ParameterBase : Type 0 where
  pub text : Bytes
  pub min : ℕ
  pub max : ℕ

-- `parameter_base<int8_t, int8_t>`
pub record NumberBase : Type 0 where
  pub number : ℤ
  pub min : ℤ
  pub max : ℤ

-- The alternatives of `parameter_variants`: `parameter<0>`, `parameter<1>` and `parameter<2>`.
pub data ParameterVariants : Type 0 where
  number_parameter : NumberBase → ParameterVariants
  string_parameter ip_parameter : ParameterBase → ParameterVariants

-- "localhost", "--help", "127.0.0.1", "username" and "password"
abbrev pub localhost : Bytes
localhost = 108 ∷ 111 ∷ 99 ∷ 97 ∷ 108 ∷ 104 ∷ 111 ∷ 115 ∷ 116 ∷ []

abbrev pub help_option : Bytes
help_option = 45 ∷ 45 ∷ 104 ∷ 101 ∷ 108 ∷ 112 ∷ []

abbrev pub loopback : Bytes
loopback = 49 ∷ 50 ∷ 55 ∷ 46 ∷ 48 ∷ 46 ∷ 48 ∷ 46 ∷ 49 ∷ []

abbrev pub username : Bytes
username = 117 ∷ 115 ∷ 101 ∷ 114 ∷ 110 ∷ 97 ∷ 109 ∷ 101 ∷ []

abbrev pub password : Bytes
password = 112 ∷ 97 ∷ 115 ∷ 115 ∷ 119 ∷ 111 ∷ 114 ∷ 100 ∷ []

-- "--db-hostname", "--db-username" and "--db-password"
abbrev db_option : Bytes → Bytes
db_option name = 45 ∷ 45 ∷ 100 ∷ 98 ∷ 45 ∷ name

abbrev pub db_hostname : Bytes
db_hostname = db_option (104 ∷ 111 ∷ 115 ∷ 116 ∷ 110 ∷ 97 ∷ 109 ∷ 101 ∷ [])

abbrev pub db_username : Bytes
db_username = db_option username

abbrev pub db_password : Bytes
db_password = db_option password

-- `TYPE_SMALL_NUMBER`, `TYPE_STRING` and `TYPE_IP`
abbrev pub type_small_number : ℕ
type_small_number = 0

abbrev pub type_string : ℕ
type_string = 1

abbrev pub type_ip : ℕ
type_ip = 2

-- The arguments of a constructor: the deduction guides of `parameter` choose the alternative by their
-- types. The least value, the greatest and the default, or the default host.
pub data Args : Type 0 where
  number_args : ℤ → ℤ → ℤ → Args
  string_args : ℕ → ℕ → Bytes → Args
  ip_args : Bytes → Args

-- The number of the type is given apart from the arguments.
pub record RawParameter : Type 0 where
  pub type_index : ℕ
  pub option : Bytes
  pub args : Args

unfoldable pub make_from_tuple : Args → ParameterVariants
make_from_tuple (Args.number_args min max default) =
    ParameterVariants.number_parameter (record { number = default; min = min; max = max })
make_from_tuple (Args.string_args min max default) =
    ParameterVariants.string_parameter (record { text = default; min = min; max = max })
make_from_tuple (Args.ip_args hostname) =
    ParameterVariants.ip_parameter (record { text = hostname; min = 0; max = 1024 })

unfoldable pub make_parameter : Bytes → ℕ → Args → RawParameter
make_parameter option type_index args = record {
  type_index = type_index;
  option = option;
  args = args;
}

-- What `make_parameters` returns: the parameters, the options and the numbers of the types.
pub record ParameterTable : Type 0 where
  pub parameters : List ParameterVariants
  pub options : List Bytes
  pub type_sequence : List ℕ

unfoldable pub make_parameters : List RawParameter → ParameterTable
make_parameters raw_parameters = record {
  parameters = map (λ (r : RawParameter). make_from_tuple r.args) raw_parameters;
  options = map (λ (r : RawParameter). r.option) raw_parameters;
  type_sequence = map (λ (r : RawParameter). r.type_index) raw_parameters;
}

unfoldable pub tuple_boy : ParameterTable
unfolding make_parameters make_parameter make_from_tuple
tuple_boy = make_parameters (
    make_parameter db_hostname type_ip (Args.ip_args loopback)
    ∷ make_parameter db_username type_string (Args.string_args 4 64 username)
    ∷ make_parameter db_password type_string (Args.string_args 4 64 password)
    ∷ [])

unfoldable pub options : List Bytes
unfolding tuple_boy make_parameters make_parameter make_from_tuple
options = tuple_boy.options

unfoldable pub parameters : List ParameterVariants
unfolding tuple_boy make_parameters make_parameter make_from_tuple
parameters = tuple_boy.parameters

unfoldable pub type_sequence : List ℕ
unfolding tuple_boy make_parameters make_parameter make_from_tuple
type_sequence = tuple_boy.type_sequence
