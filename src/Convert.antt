-- ===== src/Convert.antt =====
-- frontend/src/lib/convert.ts: the values that cross the wire, as bytes.
-- `Names` has the type names and their tables, `Engine` the JavaScript engine's conversions, `Bytes`
-- little-endian words and `Uint8Array` views, `Encode` fromValue, makeData, fromData and concatData,
-- `Shorthands` int8 to bool, `Decode` astype, hexdump and isEmpty, `Unpack` unpack; the other children hold their laws.
pub mod Names
pub mod Engine
pub mod Bytes
pub mod Encode
pub mod Sized
pub mod Concat
pub mod Shorthands
pub mod Decode
pub mod Framing
pub mod Numbers
pub mod Texts
pub mod Tables
pub mod Unpack
