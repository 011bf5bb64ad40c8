-- ===== src/Plugins/Rpc.antt =====
-- rpc.ts: MxRpc, with a function for each method of the server.
use mulex_fk.Prelude.{ℕ, zero, suc, drop, none, some, List, [], ◌∷◌, if◌then◌else◌}
use mulex_fk.Prelude.Keys.{number_key, list_key}
use mulex_fk.Prelude.Literals.{units}
use mulex_fk.Prelude.Results.{Result, ok, throw, range_error, type_error}
use mulex_fk.Convert.Names.{Intype, native, generic, no_response, stringarray}
use mulex_fk.Convert.Engine.{Engine, Text}
use mulex_fk.Convert.Decode.{Output, texts, astype}
use mulex_fk.Stores.Maps
use mulex_fk.Utils.Texts.{includes, starts_with}
use mulex_fk.Utils.Arrays.{array_chunkify}
use mulex_fk.Calls.Jobs.{Job, await, modify, get, attempt, ◌>>=◌}

-- What stands behind the last '::' of a name that is cut at each from the left; `skip` is what is left of
-- the one before, and `best` what stands behind it.
unfoldable pub behind_colons : (skip : ℕ) (best : Text) → Text → Text
behind_colons skip best [] = best
behind_colons (suc skip) best (c ∷ t) = behind_colons skip best t
behind_colons zero best (c ∷ t) =
    let cut = starts_with (units "::") (c ∷ t) in
    behind_colons (if cut then 1 else 0) (if cut then drop 1 t else best) t

-- `name.split('::').pop()`
abbrev pub last_name : Text → Text
last_name name = behind_colons 0 name name

-- What a function of MxRpc calls.
pub record Target : Type 0 where
  pub method : Text
  pub response : Intype

-- The functions by their names; one that comes later replaces one of the same name.
abbrev pub Functions : Type 0
Functions = List (Text × Target)

unfoldable pub response_of : Text → Intype
response_of rettype =
    if includes (units "void") rettype
    then no_response
    else if includes (units "RPCGenericType") rettype
    then generic
    else native

abbrev pub add_call : List Text → Functions → Result Functions
add_call (method ∷ ret ∷ rest) functions = ok (
    Maps.put functions (last_name method)
      (record { method = method; response = response_of (last_name ret) }))
add_call _ functions = throw type_error

-- The loop over the methods.
unfoldable pub add_calls : List (List Text) → Functions → Result Functions
unfolding behind_colons response_of
add_calls [] functions = ok functions
add_calls (method ∷ methods) functions = elim (add_call method functions) [
  | ok next ↦ add_calls methods next
  | throw e ↦ throw e
]

-- `array_chunkify(..., 2)`, on what astype gives for a stringarray; without a limit on its rounds there
-- are always pieces.
abbrev pub methods_of : {F : Type 0} → Output F → Result (List (List Text))
methods_of (texts ts) = elim (array_chunkify ts 2) [ some cs ↦ ok cs | none ↦ throw range_error ]
methods_of _ = throw type_error

module _ (E : Engine) where
  -- setupCalls
  unfoldable pub setup_calls : Job Functions (Unit {0})
  setup_calls = do
    res ← await "mulex::RpcGetAllCalls" [] generic
    names ← attempt (astype E res stringarray)
    methods ← attempt (methods_of names)
    functions ← get
    added ← attempt (add_calls methods functions)
    modify (λ s. added)
