-- ===== src/Rdb/Created.antt =====
-- RdbViewer.tsx: the statistics, and the dialogs that edit, delete and create a key.
use mulex_fk.Prelude.{
  Bool, true, false, ◌&&◌, ◌||◌, not, Option, none, some, List, [], ◌∷◌, ◌++◌, if◌then◌else◌,
}
use mulex_fk.Prelude.Int.{pos}
use mulex_fk.Prelude.Keys.{number_key, list_key, ◌==◌}
use mulex_fk.Prelude.Literals.{units}
use mulex_fk.Prelude.Results.{Result}
use mulex_fk.Convert.Names.{
  TypeName, native, generic, no_response, uint32, uint64, float32, float64, string, bool,
  typeid_from_type,
}
use mulex_fk.Convert.Engine.{Engine, Text, Number, Value, int, real}
use mulex_fk.Convert.Engine
use mulex_fk.Convert.Encode.{MxGenericType, from_value, str512}
use mulex_fk.Convert.Shorthands
use mulex_fk.Convert.Decode.{Output, astype}
use mulex_fk.Stores.Sets
use mulex_fk.Utils.Texts.{starts_with, ends_with}
use mulex_fk.Calls.Jobs.{Job, done, await, launch, modify, attempt, rpc, ◌>>=◌}

-- The fields of RdbStats; before the first reply they are 0.
pub record RdbStats (F : Type 0) : Type 0 where
  pub read : Option (Output F)
  pub write : Option (Output F)
  pub nkeys : Option (Output F)
  pub size : Option (Output F)
  pub allocated : Option (Output F)

pub data Statistic : Type 0 where
  read write nkeys allocated size : Statistic

-- The type that a statistic is read as.
abbrev pub type_of_stat : Statistic → TypeName
type_of_stat read = uint32
type_of_stat write = uint32
type_of_stat nkeys = uint64
type_of_stat allocated = uint64
type_of_stat size = uint64

abbrev pub put_stat : {F : Type 0} → Statistic → Output F → RdbStats F → RdbStats F
put_stat read v s = record s { read = some v }
put_stat write v s = record s { write = some v }
put_stat nkeys v s = record s { nkeys = some v }
put_stat allocated v s = record s { allocated = some v }
put_stat size v s = record s { size = some v }

-- The tests of the callback on the end of the key.
unfoldable pub stat_of_key : Text → Option Statistic
stat_of_key key =
    if ends_with (units "read") key
    then some read
    else if ends_with (units "write") key
    then some write
    else if ends_with (units "nkeys") key
    then some nkeys
    else if ends_with (units "allocated") key
    then some allocated
    else if ends_with (units "size") key
    then some size
    else none

abbrev pub stat_name : Statistic → Text
stat_name read = units "read"
stat_name write = units "write"
stat_name nkeys = units "nkeys"
stat_name allocated = units "allocated"
stat_name size = units "size"

module _ (E : Engine) where
  open E use {Float, text_number}

  -- setRdbStat
  unfoldable pub set_rdb_stat : Statistic → Job (RdbStats Float) (Unit {0})
  set_rdb_stat stat = do
    key ← attempt (str512 E (units "/system/rdb/statistics/" ++ stat_name stat) native)
    res ← await "mulex::RdbReadValueDirect" (key ∷ []) generic
    v ← attempt (astype E res (type_of_stat stat))
    modify (put_stat stat v)

  abbrev put_if_known : Option Statistic → MxGenericType → Job (RdbStats Float) (Unit {0})
  put_if_known none res = done tt
  put_if_known (some stat) res = do
    v ← attempt (astype E res (type_of_stat stat))
    modify (put_stat stat v)

  -- The callback of the watched statistics.
  unfoldable pub on_statistic : Text → Job (RdbStats Float) (Unit {0})
  on_statistic key = do
    name ← attempt (str512 E key native)
    res ← await "mulex::RdbReadValueDirect" (name ∷ []) generic
    put_if_known (stat_of_key key) res

  -- What the edit dialog writes: the text of its field, or the choice of a Boolean.
  pub data Written : Type 0 where
    typed : Text → Written
    chosen : Bool → Written

  abbrev pub number_of : Written → Number Float
  number_of (typed t) = text_number t
  number_of (chosen true) = int (pos 1)
  number_of (chosen false) = int (pos 0)

  abbrev pub value_of : Written → Value Float
  value_of (typed t) = Engine.text t
  value_of (chosen b) = Engine.boolean b

  abbrev pub is_float : TypeName → Bool
  is_float float32 = true
  is_float float64 = true
  is_float _ = false

  abbrev pub is_string : TypeName → Bool
  is_string string = true
  is_string _ = false

  abbrev pub is_bool : TypeName → Bool
  is_bool bool = true
  is_bool _ = false

  -- `Number.isInteger`
  abbrev pub is_integer : Number Float → Bool
  is_integer (int z) = true
  is_integer (real x) = false

  module _ (is_nan : Number Float → Bool) where
    -- editValidator, for a type that is no 'STRING', 'FLOAT32' or 'FLOAT64' where it tests for these.
    unfoldable pub edit_validator : TypeName → Written → Bool
    edit_validator type w =
        if is_nan (number_of w) && not (is_string type)
        then false
        else if not (is_nan (number_of w))
            && (not (is_float type) && (not (is_string type) && not (is_integer (number_of w))))
        then false
        else true

    -- validateValueData
    unfoldable pub validate_value_data : TypeName → Text → Bool
    validate_value_data type t =
        if not (is_string type) && not (is_bool type) then not (is_nan (text_number t)) else true

  -- 'Save': `key` is the path and the name.
  unfoldable pub save_value : (key : Text) → TypeName → Written → Job (RdbStats Float) (Unit {0})
  save_value key type w = do
    name ← attempt (str512 E key native)
    v ← attempt (from_value E (value_of w) type generic)
    launch (rpc "mulex::RdbWriteValueDirect" (name ∷ v ∷ []) no_response)

  -- 'Delete'
  unfoldable pub delete_value : (key : Text) → Job (RdbStats Float) (Unit {0})
  delete_value key = do
    name ← attempt (str512 E key native)
    launch (rpc "mulex::RdbDeleteValueDirect" (name ∷ []) no_response)

  -- The `data` of createRdbEntry.
  unfoldable pub entry_data : TypeName → Text → Result MxGenericType
  entry_data type t =
      if is_bool type
      then Shorthands.bool E (t == units "1") generic
      else if not (is_string type)
      then from_value E (Engine.number (text_number t)) type generic
      else str512 E t generic

  -- `MxGenericType.typeidFromType(newValueType())`, with NaN for a name that it does not know.
  abbrev pub type_number : TypeName → Number Float
  type_number type = elim (typeid_from_type type) [ some n ↦ int (pos n) | none ↦ real E.nan ]

  unfoldable pub create_rdb_entry :
      (key : Text) → TypeName → Text → Job (RdbStats Float) (Output Float)
  unfolding entry_data
  create_rdb_entry key type t = do
    v ← attempt (entry_data type t)
    name ← attempt (str512 E key native)
    id ← attempt (Shorthands.uint8 E (type_number type) native)
    zero ← attempt (Shorthands.uint64 E (pos 0) native)
    res ← await "mulex::RdbCreateValueDirect" (name ∷ id ∷ zero ∷ v ∷ []) native
    attempt (astype E res bool)

-- validateValueKey
unfoldable pub validate_value_key : List Text → Text → Bool
unfolding starts_with
validate_value_key keys key =
    not (starts_with (units "/system/") key || (Sets.has keys key || key == units "/system"))
