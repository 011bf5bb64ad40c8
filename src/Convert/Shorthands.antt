-- ===== src/Convert/Shorthands.antt =====
-- convert.ts: the shorthands for fromValue with a number, a bigint or a Boolean.
use mulex_fk.Prelude.{Bool}
use mulex_fk.Prelude.Int.{ℤ}
use mulex_fk.Prelude.Results.{Result}
use mulex_fk.Convert.Names
use mulex_fk.Convert.Names.{Intype}
use mulex_fk.Convert.Engine.{Engine, Number, number, bigint, boolean}
use mulex_fk.Convert.Encode.{MxGenericType, from_value}

module _ (E : Engine) where
  open E use {Float}

  unfoldable pub int8 : Number Float → Intype → Result MxGenericType
  int8 value intype = from_value E (number value) Names.int8 intype

  unfoldable pub uint8 : Number Float → Intype → Result MxGenericType
  uint8 value intype = from_value E (number value) Names.uint8 intype

  unfoldable pub int32 : Number Float → Intype → Result MxGenericType
  int32 value intype = from_value E (number value) Names.int32 intype

  unfoldable pub uint32 : Number Float → Intype → Result MxGenericType
  uint32 value intype = from_value E (number value) Names.uint32 intype

  unfoldable pub int64 : ℤ → Intype → Result MxGenericType
  int64 value intype = from_value E (bigint value) Names.int64 intype

  unfoldable pub uint64 : ℤ → Intype → Result MxGenericType
  uint64 value intype = from_value E (bigint value) Names.uint64 intype

  unfoldable pub f32 : Number Float → Intype → Result MxGenericType
  f32 value intype = from_value E (number value) Names.float32 intype

  unfoldable pub f64 : Number Float → Intype → Result MxGenericType
  f64 value intype = from_value E (number value) Names.float64 intype

  unfoldable pub bool : Bool → Intype → Result MxGenericType
  bool value intype = from_value E (boolean value) Names.bool intype
