-- ===== src/Users/Meta.antt =====
-- usermeta.ts.
use mulex_fk.Prelude.{ℕ, ◌+◌, Option, none, some, List, [], ◌∷◌, length}
use mulex_fk.Prelude.Keys.{number_key, list_key}
use mulex_fk.Prelude.Results.{Result, ok, throw, type_error}
use mulex_fk.Convert.Names.{generic, no_response, bytearray}
use mulex_fk.Convert.Engine.{Engine, Text}
use mulex_fk.Convert.Encode.{MxGenericType, make_data}
use mulex_fk.Convert.Unpack
use mulex_fk.Convert.Unpack.{Unpacked, rows, unpack}
use mulex_fk.Calls.Jobs.{Job, done, await, launch, attempt, rpc, ◌>>=◌}
use mulex_fk.Stores.Maps

-- JSON objects, by their keys, over the values `V`: what JSON.parse and JSON.stringify make of them.
pub record Json : Type 1 where
  pub V : Type 0
  pub parse : Text → Result (List (Text × V))
  pub stringify : List (Text × V) → Text

module _ (E : Engine) (json : Json) where
  open E use {encode, decode}
  open json use {V, parse, stringify}

  -- `data.unpack(['bytearray'])[0][0]`
  abbrev pub first_bytes : Unpacked E.Float → Result (List ℕ)
  first_bytes (rows ((Unpack.bytes bdata ∷ row) ∷ rs)) = ok bdata
  first_bytes (Unpack.throws e) = throw e
  first_bytes _ = throw type_error

  abbrev pub object_of : Text → Result (Option (List (Text × V)))
  object_of [] = ok none
  object_of (c ∷ t) = elim (parse (c ∷ t)) [ ok object ↦ ok (some object) | throw e ↦ throw e ]

  unfoldable pub get_all : {S : Type 0} → Job S (Option (List (Text × V)))
  get_all = do
    reply ← await "mulex::PdbUserMetadataGet" [] generic
    bdata ← attempt (first_bytes (unpack E (length reply.bytes.buffer + 1) reply (bytearray ∷ [])))
    attempt (object_of (decode bdata))

  -- SendMetaObject, which nothing awaits: an exception in it stays there.
  abbrev pub send_payload : {S : Type 0} → Result MxGenericType → Job S (Unit {0})
  send_payload (ok payload) = launch (rpc "mulex::PdbUserMetadataSet" (payload ∷ []) no_response)
  send_payload (throw e) = done tt

  unfoldable pub send_meta_object : {S : Type 0} → List (Text × V) → Job S (Unit {0})
  send_meta_object metadata = send_payload (make_data (encode (stringify metadata)) generic)

  abbrev pub value_at : Text → Option (List (Text × V)) → Option V
  value_at key none = none
  value_at key (some object) = Maps.get object key

  -- The public functions of MxUserMetadata.
  unfoldable pub get_meta : {S : Type 0} → Text → Job S (Option V)
  get_meta key = do object ← get_all; done (value_at key object)

  abbrev pub or_new : Option (List (Text × V)) → List (Text × V)
  or_new none = []
  or_new (some metadata) = metadata

  unfoldable pub set_meta : {S : Type 0} → Text → V → Job S (Unit {0})
  set_meta key value = do
    metadata ← get_all
    send_meta_object (Maps.put (or_new metadata) key value)

  -- `delete metadata[key]`, which throws on undefined.
  abbrev pub without_key : Text → Option (List (Text × V)) → Result (List (Text × V))
  without_key key none = throw type_error
  without_key key (some metadata) = ok (Maps.delete metadata key)

  unfoldable pub clear_meta : {S : Type 0} → Text → Job S (Unit {0})
  clear_meta key = do
    metadata ← get_all
    rest ← attempt (without_key key metadata)
    send_meta_object rest
