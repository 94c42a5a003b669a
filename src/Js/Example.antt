-- ===== src/Js/Example.antt =====
-- An engine for the tests.
use block_chain.Common.{String}
use block_chain.Js.{Engine, Number, integer, pos, negsuc, fraction, infinite, nan}

abbrev pub show_example : Number → String
show_example (integer (pos n)) = "1"
show_example (integer (negsuc n)) = "-1"
show_example (fraction negative text) = text
show_example (infinite negative) = "Infinity"
show_example nan = "NaN"

abbrev pub example_engine : Engine
example_engine = record { show_number = show_example; type_error_message = λ what. what }
