-- ===== src/Tests/Console.antt =====
-- The logger, and the start of the database, at concrete inputs.
use mydak_server.Base.{◌≡◌, refl, [], ◌∷◌, ◌++◌, false, some, arith, Bytes}
use mydak_server.Logger.{get_func_name}
use mydak_server.Logger.Names.{IsPart, get_func_name-IsPart, get_func_name_lem}
use mydak_server.Database.Operations.{Database}
use mydak_server.Database.Setup.{Connector, Started, start-Started}
use mydak_server.Tests.Memory.{memory, no_rows}

-- "int main()": the types, the name and the arguments of a function
abbrev int_main : Bytes
int_main = 105 ∷ 110 ∷ 116 ∷ 32 ∷ 109 ∷ 97 ∷ 105 ∷ 110 ∷ 40 ∷ 41 ∷ []

get_func_name-IsPart_example :
    (name : Bytes) × (get_func_name int_main ≡ some name) × IsPart name int_main
get_func_name-IsPart_example = get_func_name-IsPart int_main (omega arith)

get_func_name_lem_example :
    (get_func_name ((70 ∷ []) ++ 32 ∷ ((71 ∷ 44 ∷ []) ++ 40 ∷ 72 ∷ 41 ∷ [])) ≡ some (71 ∷ 44 ∷ []))
    × (get_func_name ((70 ∷ []) ++ 40 ∷ ((71 ∷ 44 ∷ []) ++ 32 ∷ 72 ∷ 41 ∷ []))
        ≡ some (72 ∷ 41 ∷ []))
get_func_name_lem_example =
    get_func_name_lem (70 ∷ []) (71 ∷ 44 ∷ []) (72 ∷ 41 ∷ []) (omega arith) (omega arith)
      (omega arith) (omega arith) (omega arith)

-- A server that takes every user and password, and has the tables.
abbrev open_to_all : Connector memory
open_to_all = record {
  connect = λ hostname username password. some no_rows;
  prepare = λ request tables. some tables;
}

abbrev idle : Database memory
idle = record { running = false; connected = false; tables = no_rows }

start-Started_example : Started memory open_to_all [] [] [] idle
start-Started_example = start-Started memory open_to_all [] [] [] idle refl
