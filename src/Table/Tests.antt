-- ===== src/Table/Tests.antt =====
-- SymbolTable.cpp: runs of the operations on small tables.
use caramel.Prelude.{
  lookup, insert, List, String, str_eq, ◌≡◌, ◌⊎◌, ◌↔◌, refl, true, false, not, ◌||◌, none, some, [],
  ◌∷◌, if◌then◌else◌,
}
use caramel.Types.{int8_t, int32_t, int64_t, void_t, equals}
use caramel.Symbols.{
  Symbol, FunctionParameterSignature, variable, function, array, variable_symbol, array_symbol,
  function_symbol,
}
use caramel.Symbols
use caramel.Table
use caramel.Table.{SymbolTable, root, child, modify, get_symbol, put, symbol_map}
use caramel.Table.Errors.{ok, err, undefined_symbol, symbol_type_mismatch, type_mismatch}
use caramel.Table.Validity.{IsValid}
use caramel.Table.Variables.{
  add_variable_declaration, add_variable_definition, add_variable_usage, has_type, here, require,
}
use caramel.Table.Arrays.{add_array_access}
use caramel.Table.Functions.{
  add_function_call, match_parameters, add_function_parameter, parameter_symbol,
}
use caramel.Table.Usage.{add_variable_usage-resolve, get_symbol-add_variable_usage}
use caramel.Table.Access.{add_array_access-resolve}
use caramel.Table.Declaring.{
  succeeds, succeeds-add_variable_declaration, add_variable_declaration-get_symbol,
  add_variable_definition-add_variable_declaration,
}
use caramel.Table.Parameters.{add_function_parameter_twice}
use caramel.Table.Calls.{SameParameters, Callable, match_parameters_iff, add_function_call_iff}
use caramel.Table.Operations.{
  Reach, start, step, enter, leave, run, declare_variable, define_variable,
}
use caramel.Table.Operations.Reached.{Reach-IsValid}

-- int32_t x; in a file, and its definition in a scope of that file.
abbrev int_x : Symbol
int_x = record {
  name = "x";
  type = int32_t;
  declaration = some 1;
  definition = none;
  occurrences = [];
  details = variable;
}

abbrev defined_x : Symbol
defined_x = record int_x { definition = some 2 }

abbrev file : SymbolTable
file = root (("x", int_x) ∷ [])

abbrev defined_file : SymbolTable
defined_file = root (("x", defined_x) ∷ [])

abbrev used_x : Symbol
used_x = record defined_x { occurrences = 3 ∷ [] }

abbrev used_file : SymbolTable
used_file = root (("x", used_x) ∷ [])

declares_x : add_variable_declaration int32_t "x" 1 (root []) ≡ ok (int_x, file)
unfolding add_variable_declaration Table.is_declared Table.is_defined put Symbols.add_declaration
    lookup insert
declares_x = refl

runs_declaration : run (declare_variable int32_t "x" 1) (root []) ≡ ok file
unfolding run add_variable_declaration Table.is_declared Table.is_defined put lookup insert
    Symbols.add_declaration
runs_declaration = refl

runs_definition : run (define_variable int32_t "x" 2) (child [] file) ≡ ok (child [] defined_file)
unfolding run add_variable_definition require has_type Table.is_declared Table.is_defined get_symbol
    lookup insert modify equals Symbols.add_definition Symbols.is_declared Symbols.is_defined
runs_definition = refl

reaches : Reach defined_file
reaches =
    leave
      (step (enter (step start (declare_variable int32_t "x" 1) runs_declaration))
        (define_variable int32_t "x" 2) runs_definition)
      refl

uses_x : add_variable_usage "x" 3 (child [] defined_file) ≡ ok (used_x, child [] used_file)
unfolding add_variable_usage require has_type Table.is_defined get_symbol modify Symbols.add_usage
    lookup insert Symbols.is_defined
uses_x = refl

Reach-IsValid_example : IsValid defined_file
Reach-IsValid_example = Reach-IsValid reaches

add_variable_usage-resolve_example :
    ((Table.is_defined "x" (child [] defined_file) ≡ false)
      × (add_variable_usage "x" 3 (child [] defined_file) ≡ err (undefined_symbol "x")))
    ⊎ ((s : Symbol) × (Table.is_defined "x" (child [] defined_file) ≡ true)
        × (get_symbol "x" (child [] defined_file) ≡ some s)
        × (add_variable_usage "x" 3 (child [] defined_file) ≡ (
            if has_type variable_symbol s || has_type array_symbol s
            then ok
                (Symbols.add_usage 3 s, modify "x" (Symbols.add_usage 3) (child [] defined_file))
            else err
                (symbol_type_mismatch "x" variable_symbol (here "x" (child [] defined_file))))))
add_variable_usage-resolve_example = add_variable_usage-resolve "x" 3 (child [] defined_file)

get_symbol-add_variable_usage_example :
    (s : Symbol) × (get_symbol "x" (child [] defined_file) ≡ some s)
    × (used_x ≡ Symbols.add_usage 3 s)
    × ((j : String)
        → get_symbol j (child [] used_file)
          ≡ (if str_eq "x" j then some used_x else get_symbol j (child [] defined_file)))
get_symbol-add_variable_usage_example =
    get_symbol-add_variable_usage "x" 3 (child [] defined_file) uses_x

-- void f(int32_t n); before a scope.
abbrev f_parameters : List FunctionParameterSignature
f_parameters = record { name = "n"; primary_type = int32_t; symbol_type = variable_symbol } ∷ []

abbrev f_symbol : Symbol
f_symbol = record {
  name = "f";
  type = void_t;
  declaration = some 4;
  definition = some 4;
  occurrences = [];
  details = function none false f_parameters;
}

abbrev f_file : SymbolTable
f_file = root (("f", f_symbol) ∷ [])

f_is_defined : Table.is_defined "f" f_file ≡ true
unfolding Table.is_defined Symbols.is_defined lookup
f_is_defined = refl

f_found : get_symbol "f" f_file ≡ some f_symbol
unfolding get_symbol lookup
f_found = refl

add_function_call_iff_example :
    (add_function_call "f" (int8_t ∷ []) 6 f_file
      ≡ ok (Symbols.add_usage 6 f_symbol, modify "f" (Symbols.add_usage 6) f_file))
    ↔ ((Table.is_declared "f" f_file ≡ true) × Callable (int8_t ∷ []) f_symbol)
add_function_call_iff_example = add_function_call_iff "f" (int8_t ∷ []) 6 f_file f_symbol f_found

match_parameters_iff_example :
    (match_parameters "f" f_parameters f_parameters ≡ ok tt)
    ↔ SameParameters f_parameters f_parameters
match_parameters_iff_example = match_parameters_iff "f" f_parameters f_parameters

-- int8_t a[4];
abbrev a_symbol : Symbol
a_symbol = record {
  name = "a";
  type = int8_t;
  declaration = some 7;
  definition = some 7;
  occurrences = [];
  details = array (some 4) none;
}

abbrev a_file : SymbolTable
a_file = root (("a", a_symbol) ∷ [])

add_array_access-resolve_example :
    ((Table.is_defined "a" a_file ≡ false)
      × (add_array_access "a" 8 a_file ≡ err (undefined_symbol "a")))
    ⊎ ((s : Symbol) × (Table.is_defined "a" a_file ≡ true)
        × (get_symbol "a" a_file ≡ some s)
        × (add_array_access "a" 8 a_file ≡ (
            if has_type array_symbol s
            then ok (Symbols.add_usage 8 s, modify "a" (Symbols.add_usage 8) a_file)
            else err (symbol_type_mismatch "a" array_symbol (here "a" a_file)))))
add_array_access-resolve_example = add_array_access-resolve "a" 8 a_file

succeeds-add_variable_declaration_example :
    succeeds (add_variable_declaration int32_t "x" 9 (child [] file))
    ≡ not (Table.is_defined "x" (child [] file) || Table.is_declared "x" (child [] file))
succeeds-add_variable_declaration_example =
    succeeds-add_variable_declaration int32_t "x" 9 (child [] file)

add_variable_declaration-get_symbol_example :
    (Table.is_declared "x" file ≡ true)
    × (Table.is_defined "x" file ≡ false)
    × (int_x.name ≡ "x")
    × (int_x.type ≡ int32_t)
    × ((j : String)
        → get_symbol j file ≡ (if str_eq "x" j then some int_x else get_symbol j (root [])))
add_variable_declaration-get_symbol_example =
    add_variable_declaration-get_symbol int32_t "x" 1 (root []) declares_x

add_variable_definition-add_variable_declaration_example :
    add_variable_definition int64_t "x" 2 file ≡ (
      if equals int32_t int64_t
      then ok
          (Symbols.add_definition (some 2) int_x, modify "x" (Symbols.add_definition (some 2)) file)
      else err (type_mismatch "x" int64_t (some int_x)))
add_variable_definition-add_variable_declaration_example =
    add_variable_definition-add_variable_declaration int32_t int64_t "x" 1 2 (root []) declares_x

abbrev parameter_x : Symbol
parameter_x = record int_x { declaration = none }

adds_parameter :
    add_function_parameter "x" int32_t variable_symbol (root [])
    ≡ ok (parameter_x, root (("x", parameter_x) ∷ []))
unfolding add_function_parameter parameter_symbol Table.is_defined put lookup insert
adds_parameter = refl

add_function_parameter_twice_example :
    (s' : Symbol) × (parameter_symbol "x" int64_t variable_symbol ≡ ok s')
    × (add_function_parameter "x" int64_t variable_symbol (root (("x", parameter_x) ∷ []))
        ≡ ok (s', put "x" s' (root (("x", parameter_x) ∷ []))))
    × ((j : String)
        → get_symbol j (put "x" s' (root (("x", parameter_x) ∷ [])))
          ≡ (if str_eq "x" j then some s' else get_symbol j (root [])))
add_function_parameter_twice_example =
    add_function_parameter_twice "x" int32_t int64_t variable_symbol (root []) adds_parameter
