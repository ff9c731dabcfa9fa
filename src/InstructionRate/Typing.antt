-- ===== src/InstructionRate/Typing.antt =====
-- The types in InstructionRate/x86instructionrate.h and InstructionRate/arminstructionrate.h, and
-- when a call of measureFunction fits them.
pub mod Laws
mod Tests
use u_arch_test.Prelude.{
  if◌then◌else◌, Bool, true, false, ◌&&◌, List, [], ◌∷◌, Option, none, some, map,
}
use u_arch_test.InstructionRate.Measure.{
  Array, int_test_arr, fp_test_arr, int_sink_arr, fp_sink_arr, sink_arr, Wrapper, resolved,
}
use Prim.Native.String.{String}
use text.Mathlib.Text

-- The type of a parameter after `uint64_t iterations`, and that of an array's elements.
pub data ParamType : Type 0 where
  int_arr float_arr : ParamType

pub record Declaration : Type 0 where
  pub name : String
  pub params : List ParamType

abbrev pub declares : String → List ParamType → Declaration
declares name params = record { name = name; params = params }

abbrev pub element_type : Array → ParamType
element_type int_test_arr = int_arr
element_type fp_test_arr = float_arr
element_type int_sink_arr = int_arr
element_type fp_sink_arr = float_arr
element_type sink_arr = int_arr

-- The parameters of a function that a header declares.
unfoldable pub declared : List Declaration → String → Option (List ParamType)
declared [] name = none
declared (d ∷ ds) name =
    let rest = declared ds name in if Text.◌==◌ d.name name then some d.params else rest

unfoldable pub is_listed : List String → String → Bool
is_listed [] name = false
is_listed (n ∷ ns) name = let rest = is_listed ns name in if Text.◌==◌ n name then true else rest

abbrev pub same_type : ParamType → ParamType → Bool
same_type int_arr int_arr = true
same_type float_arr float_arr = true
same_type _ _ = false

abbrev pub same_types : List ParamType → List ParamType → Bool
same_types [] [] = true
same_types (a ∷ as') (b ∷ bs) = same_type a b && same_types as' bs
same_types _ _ = false

-- Whether a function can be passed to measureFunction: a wrapper whose arrays have the types that
-- the assembly function in it asks for, or an assembly function of iterations only.
unfoldable pub well_typed :
    List Declaration → (wrapper_names : List String) → List Wrapper → (testfunc : String) → Bool
well_typed ds names ws testfunc =
    let (target, arrays) = resolved ws testfunc in
    elim (declared ds target) [
      | none ↦ false
      | some params ↦
          same_types params (map element_type arrays)
          && (if is_listed names testfunc then true else Text.◌==◌ target testfunc)
    ]
