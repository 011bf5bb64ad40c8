-- ===== src/Convert/Names.antt =====
-- convert.ts: the type names, typeFromTypeid, typeidFromType and sizeFromType.
use mulex_fk.Prelude.{ℕ, Option, none, some, ◌==◌, if◌then◌else◌}

-- The literals that convert.ts compares a type name with. `empty` is '', and `other` stands for any
-- name that it compares with none of them.
pub data TypeName : Type 0 where
  int8 int16 int32 int64 uint8 uint16 uint32 uint64 float32 float64 : TypeName
  bool string string32 string128 string512 stringarray : TypeName
  str32 str128 str512 bytearray cstr : TypeName
  empty other : TypeName

-- The second argument of the constructor: 'native' has the bytes alone, 'generic' a size first.
-- rpc_call passes the third on for calls with no response.
pub data Intype : Type 0 where
  native generic no_response : Intype

unfoldable pub type_from_typeid : ℕ → TypeName
type_from_typeid id =
    if id == 0
    then int8
    else if id == 1
    then int16
    else if id == 2
    then int32
    else if id == 3
    then int64
    else if id == 4
    then uint8
    else if id == 5
    then uint16
    else if id == 6
    then uint32
    else if id == 7
    then uint64
    else if id == 8
    then float32
    else if id == 9
    then float64
    else if id == 10
    then string
    else if id == 11
    then bool
    else empty

-- On the name in lower case; `none` is NaN.
unfoldable pub typeid_from_type : TypeName → Option ℕ
typeid_from_type int8 = some 0
typeid_from_type int16 = some 1
typeid_from_type int32 = some 2
typeid_from_type int64 = some 3
typeid_from_type uint8 = some 4
typeid_from_type uint16 = some 5
typeid_from_type uint32 = some 6
typeid_from_type uint64 = some 7
typeid_from_type float32 = some 8
typeid_from_type float64 = some 9
typeid_from_type string = some 10
typeid_from_type bool = some 11
typeid_from_type _ = none

unfoldable pub size_from_type : TypeName → Option ℕ
size_from_type int8 = some 1
size_from_type int16 = some 2
size_from_type int32 = some 4
size_from_type int64 = some 8
size_from_type uint8 = some 1
size_from_type uint16 = some 2
size_from_type uint32 = some 4
size_from_type uint64 = some 8
size_from_type float32 = some 4
size_from_type float64 = some 8
size_from_type string32 = some 32
size_from_type bool = some 1
size_from_type _ = none
