-- ===== src/Rdb/Access.antt =====
-- rdb.ts: the methods of MxRdb. The state is the map `types` of the handle; `root` never changes.
use mulex_fk.Prelude.{ℕ, Option, none, some, List, [], ◌∷◌, ◌++◌}
use mulex_fk.Prelude.Int.{pos}
use mulex_fk.Prelude.Keys.{number_key, list_key}
use mulex_fk.Convert.Names.{
  TypeName, native, generic, no_response, empty, uint8, bool, string, type_from_typeid,
  typeid_from_type,
}
use mulex_fk.Convert.Engine.{Engine, Text, int, real, Number, Value}
use mulex_fk.Convert.Encode.{from_value, str512}
use mulex_fk.Convert.Shorthands
use mulex_fk.Convert.Decode.{Output, number, text, astype}
use mulex_fk.Stores.Maps.{get, put}
use mulex_fk.Calls.Jobs.{
  rpc, subscribes, unsubscribes, Job, done, look, await, launch, modify, attempt, ◌>>=◌, ◌>>◌,
}

abbrev pub Types : Type 0
Types = List (Text × TypeName)

-- `MxGenericType.typeFromTypeid(typeid)` on what astype gave: it compares with numbers only.
abbrev pub type_of_reply : {F : Type 0} → Output F → TypeName
type_of_reply (number (int (pos n))) = type_from_typeid n
type_of_reply _ = empty

abbrev pub event_name : {F : Type 0} → Output F → Option Text
event_name (text t) = some t
event_name _ = none

module _ (E : Engine) where
  open E use {Float, nan}

  -- The number that stands for a type's id in an argument.
  abbrev pub id_number : Option ℕ → Number Float
  id_number none = real nan
  id_number (some n) = int (pos n)

  abbrev pub ask_type : Text → Job Types TypeName
  ask_type key = do
    arg ← attempt (str512 E key native)
    reply ← await "mulex::RdbGetKeyType" (arg ∷ []) native
    typeid ← attempt (astype E reply uint8)
    modify (λ types. put types key (type_of_reply typeid))
    done (type_of_reply typeid)

  abbrev pub known_or_ask : Text → Option TypeName → Job Types TypeName
  known_or_ask key (some type) = done type
  known_or_ask key none = ask_type key

  unfoldable pub get_key_type : Text → Job Types TypeName
  get_key_type key = look (λ types. known_or_ask key (get types key))

  module _ (root : Text) where
    unfoldable pub exists : Text → Job Types (Output Float)
    exists key = do
      arg ← attempt (str512 E (root ++ key) native)
      reply ← await "mulex::RdbValueExists" (arg ∷ []) native
      attempt (astype E reply bool)

    unfoldable pub read : Text → Job Types (Output Float)
    read key = do
      type ← get_key_type (root ++ key)
      arg ← attempt (str512 E (root ++ key) native)
      value ← await "mulex::RdbReadValueDirect" (arg ∷ []) generic
      attempt (astype E value type)

    abbrev pub write_typed : Text → Value Float → TypeName → Job Types (Unit {0})
    write_typed key value empty = done tt
    write_typed key value type = do
      arg ← attempt (str512 E key native)
      bytes ← attempt (from_value E value type generic)
      launch (rpc "mulex::RdbWriteValueDirect" (arg ∷ bytes ∷ []) no_response)

    -- The call is not awaited.
    unfoldable pub write : Text → Value Float → Job Types (Unit {0})
    write key value = do type ← get_key_type (root ++ key); write_typed (root ++ key) value type

    unfoldable pub create : Text → TypeName → Value Float → ℕ → Job Types (Unit {0})
    create key type value count = do
      arg ← attempt (str512 E (root ++ key) native)
      id ← attempt (Shorthands.uint8 E (id_number (typeid_from_type type)) native)
      n ← attempt (Shorthands.uint64 E (pos count) native)
      bytes ← attempt (from_value E value type generic)
      reply ← await "mulex::RdbCreateValueDirect" (arg ∷ id ∷ n ∷ bytes ∷ []) native
      ok ← attempt (astype E reply bool)
      done tt

    unfoldable pub delete : Text → Job Types (Unit {0})
    delete key = do
      arg ← attempt (str512 E (root ++ key) native)
      launch (rpc "mulex::RdbDeleteValueDirect" (arg ∷ []) no_response)

    -- The promise chain that watch leaves behind when it returns.
    unfoldable pub watch : Text → Job Types (Unit {0})
    watch key = do
      arg ← attempt (str512 E (root ++ key) native)
      reply ← await "mulex::RdbWatch" (arg ∷ []) native
      name ← attempt (astype E reply string)
      launch (subscribes (event_name name))

    unfoldable pub unwatch : Text → Job Types (Unit {0})
    unwatch key = do
      arg ← attempt (str512 E (root ++ key) native)
      reply ← await "mulex::RdbWatch" (arg ∷ []) native
      name ← attempt (astype E reply string)
      launch (unsubscribes (event_name name))
