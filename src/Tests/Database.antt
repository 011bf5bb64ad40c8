-- ===== src/Tests/Database.antt =====
-- rdb.ts and globalstate.ts against small servers.
use mulex_fk.Prelude.{Option, some, ℕ, ◌≡◌, refl, ap, arith, List, [], ◌∷◌, replicate, false}
use mulex_fk.Prelude.Int.{pos}
use mulex_fk.Prelude.Keys.{number_key, list_key}
use mulex_fk.Prelude.Literals.{units}
use mulex_fk.Prelude.Results.{Result, ok}
use mulex_fk.Convert.Names.{native, generic, no_response, uint32}
use mulex_fk.Convert.Engine
use mulex_fk.Convert.Engine.{Text, int}
use mulex_fk.Convert.Bytes.{whole, contents}
use mulex_fk.Convert.Encode.{MxGenericType, from_data, str512, value_bytes}
use mulex_fk.Convert.Decode
use mulex_fk.Convert.Decode.{astype, number, text}
use mulex_fk.Convert.Numbers.{u32, word_bytes}
use mulex_fk.Stores.Maps
use mulex_fk.Calls.Jobs.{Request, rpc, ◌>>◌}
use mulex_fk.Calls.Servers.{Server, run}
use mulex_fk.Rdb.Access.{read, write}
use mulex_fk.Rdb.Caching.{type_reply}
use mulex_fk.Rdb.Unknown.{Operation, creates, reads, deletes, types_after, write-after_unknown}
use mulex_fk.Rdb.RoundTrip.{IsDatabase, read-write}
use mulex_fk.Rdb.Watching.{notice, frame, notice-frame}
use mulex_fk.Global.State.{plain, blank, Globals}
use mulex_fk.Global.Backends.{Callback, names, call_back}
use mulex_fk.Global.Told.{key_of, IsTold}
use mulex_fk.Global.Named.{call_back-IsTold}
use mulex_fk.Tests.Engines.{ascii, ascii_std}

abbrev key : Text
key = 97 ∷ []

-- The key in its 512 bytes.
abbrev wire_key : MxGenericType
wire_key = from_data (whole (97 ∷ replicate 511 0)) native

wire_key_lem : str512 ascii key native ≡ ok wire_key
unfolding str512 mulex_fk.Convert.Encode.from_value value_bytes mulex_fk.Convert.Bytes.set_bytes
wire_key_lem = refl

-- A server with one key of type uint32: its state is the bytes of the value.
abbrev keep_one : List ℕ → Request → Result MxGenericType × List ℕ
keep_one bytes (rpc method (k ∷ m ∷ []) no_response) =
    (ok (from_data (whole []) native), contents m.bytes)
keep_one bytes (rpc method args native) = (ok (type_reply 6), bytes)
keep_one bytes (rpc method args generic) = (ok (from_data (whole bytes) generic), bytes)
keep_one bytes _ = (ok (from_data (whole []) native), bytes)

abbrev one_value : Server
one_value = record { State = List ℕ; reply = keep_one }

abbrev one_value-IsDatabase : IsDatabase one_value
one_value-IsDatabase = record {
  HasType = λ w k id. 6 ≡ id;
  Holds = λ w k bytes. w ≡ bytes;
  tell = λ w k id e. ap (λ n. ok (type_reply n)) e;
  unmoved = λ w k. refl;
  keep = λ w k m id e. refl;
  give = λ w k bytes e. ap (λ b. ok (from_data (whole b) generic)) e;
}

read-write_example :
    (m : MxGenericType) × ((run one_value
        (write ascii [] key (Engine.number (int (pos 7))) >> read ascii [] key)
        []
        []).result
      ≡ ok (number (int (pos 7))))
    × ((run one_value
          (write ascii [] key (Engine.number (int (pos 7))) >> read ascii [] key)
          []
          []).sent
        ≡ rpc "mulex::RdbGetKeyType" (wire_key ∷ []) native
          ∷ rpc "mulex::RdbWriteValueDirect" (wire_key ∷ m ∷ []) no_response
          ∷ rpc "mulex::RdbReadValueDirect" (wire_key ∷ []) generic
          ∷ [])
read-write_example =
    read-write ascii one_value one_value-IsDatabase [] key u32 (pos 7) wire_key [] (omega arith)
      wire_key_lem refl

-- A server that knows no key.
abbrev no_keys : Server
no_keys = record { State = Unit; reply = λ w q. (ok (type_reply 255), w) }

-- The key is created with the handle, and read, before it is written again.
abbrev in_between : List (Operation Unit × Unit {0})
in_between =
    (creates key uint32 (Engine.number (int (pos 7))) 1, tt)
    ∷ (reads key, tt)
    ∷ (deletes key, tt)
    ∷ []

write-after_unknown_example :
    ((run no_keys (write ascii [] key (Engine.number (int (pos 7)))) [] tt).sent
      ≡ rpc "mulex::RdbGetKeyType" (wire_key ∷ []) native ∷ [])
    × ((run no_keys
          (write ascii [] key (Engine.number (int (pos 8))))
          (types_after ascii [] no_keys in_between
            (run no_keys (write ascii [] key (Engine.number (int (pos 7)))) [] tt).state)
          tt).sent
        ≡ [])
    × ((run no_keys
          (write ascii [] key (Engine.number (int (pos 8))))
          (types_after ascii [] no_keys in_between
            (run no_keys (write ascii [] key (Engine.number (int (pos 7)))) [] tt).state)
          tt).result
        ≡ ok tt)
unfolding Maps.get
write-after_unknown_example =
    write-after_unknown ascii [] no_keys key (Engine.number (int (pos 7)))
      (Engine.number (int (pos 8))) [] tt tt wire_key 255 in_between wire_key_lem refl refl
      (omega arith)

notice-frame_example :
    (m : MxGenericType) × (notice ascii (whole (frame key (word_bytes ascii u32 (pos 7))))
      ≡ ok (record { skey = text key; svalue = m }))
    × (astype ascii m uint32 ≡ ok (number (int (pos 7))))
notice-frame_example =
    notice-frame ascii ascii_std key u32 (pos 7) tt ((λ e. cc), tt) (omega arith) (omega arith)

abbrev nothing_known : Globals Unit
nothing_known = record {
  backends = [];
  logged_user_role = ([], int (pos 0));
  expname = Decode.null;
  socket_status = false;
  run_status = [];
  run_number = Decode.null;
  run_timestamp = int (pos 0);
}

-- The name of the backend 'a'.
abbrev name_key : Callback
name_key = names (key_of (97 ∷ []) (units "name")) (type_reply 98)

-- A setter that replaces what was there.
abbrev take_new : {A : Type 0} → Option A → A → A
take_new old new = new

call_back-IsTold_example :
    IsTold ascii
      (97 ∷ [])
      take_new
      no_keys
      name_key
      nothing_known
      tt
      (run no_keys (call_back ascii take_new name_key) nothing_known tt)
call_back-IsTold_example =
    call_back-IsTold ascii take_new no_keys name_key (97 ∷ []) (units "name") nothing_known tt
      (refl, tt) refl

-- The callback does not throw: the name and the host are what the server says.
name_key_lem :
    Maps.get
      (run no_keys (call_back ascii take_new name_key) nothing_known tt).state.backends
      (97 ∷ [])
    ≡ some (plain (record blank { name = some (text (98 ∷ [])); host = some (text (255 ∷ [])) }))
unfolding Maps.get run call_back astype str512 mulex_fk.Convert.Encode.from_value value_bytes
    mulex_fk.Convert.Bytes.set_bytes mulex_fk.Utils.Texts.extract_backend_name Maps.put
    mulex_fk.Prelude.Keys.same_list
name_key_lem = refl
