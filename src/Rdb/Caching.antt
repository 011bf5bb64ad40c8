-- ===== src/Rdb/Caching.antt =====
-- rdb.ts: getKeyType keeps what it has been told.
use mulex_fk.Prelude.{ℕ, ◌≤◌, ◌≡◌, refl, ap, none, some, [], ◌∷◌, ◌++◌, arith}
use mulex_fk.Prelude.Int.{pos}
use mulex_fk.Prelude.Keys.{number_key, list_key}
use mulex_fk.Prelude.Results.{ok}
use mulex_fk.Convert.Names.{native, empty, uint8, type_from_typeid}
use mulex_fk.Convert.Engine.{Engine, Text, Value, int}
use mulex_fk.Convert.Bytes.{whole, le_value}
use mulex_fk.Convert.Encode.{MxGenericType, from_data, str512}
use mulex_fk.Convert.Decode.{number, astype, read_as, typed_array, elements}
use mulex_fk.Stores.Maps.{get, put}
use mulex_fk.Calls.Jobs.{rpc}
use mulex_fk.Calls.Servers.{Server, run}
use mulex_fk.Rdb.Access.{Types, get_key_type, write}

-- The reply to a request for a type is one byte, its id.
abbrev pub type_reply : ℕ → MxGenericType
type_reply id = from_data (whole (id ∷ [])) native

pub astype-type_reply :
    (E : Engine) (id : ℕ) → astype E (type_reply id) uint8 ≡ ok (number (int (pos id)))
unfolding astype read_as typed_array elements le_value
astype-type_reply E id = ap (λ n. ok (number (int (pos n)))) (omega arith)

unknown_type : (id : ℕ) → 12 ≤ id → type_from_typeid id ≡ empty
unfolding type_from_typeid
unknown_type id h = ground arith

module _ (E : Engine) (server : Server) where
  open server use {State, reply}

  module _ (root key : Text) (value : Value E.Float) (types : Types) (w : State) where
    pub write-known :
        get types (root ++ key) ≡ some empty
        → run server (write E root key value) types w
          ≡ record { result = ok tt; state = types; world = w; sent = [] }
    unfolding run write get_key_type
    write-known h = rw (h, run) refl

    module _ (k : MxGenericType) (id : ℕ) (made : str512 E (root ++ key) native ≡ ok k)
        (told : (reply w (rpc "mulex::RdbGetKeyType" (k ∷ []) native)).0 ≡ ok (type_reply id)) where
      -- The state after a request.
      abbrev pub asked : State
      asked = (reply w (rpc "mulex::RdbGetKeyType" (k ∷ []) native)).1

      pub write-asked :
          get types (root ++ key) ≡ none
          → 12 ≤ id
          → run server (write E root key value) types w ≡ record {
            result = ok tt;
            state = put types (root ++ key) empty;
            world = asked;
            sent = rpc "mulex::RdbGetKeyType" (k ∷ []) native ∷ [];
          }
      unfolding run write get_key_type
      write-asked h large =
          rw (h, made, run, told, astype-type_reply E id, unknown_type id large) refl
