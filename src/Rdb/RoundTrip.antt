-- ===== src/Rdb/RoundTrip.antt =====
-- rdb.ts against a server that keeps what it is given: what is written is read.
use mulex_fk.Prelude.{ℕ, ◌≡◌, refl, sym, ap, ◌∙◌, none, some, List, [], ◌∷◌, ◌++◌}
use mulex_fk.Prelude.Int.{ℤ}
use mulex_fk.Prelude.Keys.{number_key, list_key}
use mulex_fk.Prelude.Results.{ok}
use mulex_fk.Convert.Names.{TypeName, native, generic, no_response, type_from_typeid}
use mulex_fk.Convert.Engine
use mulex_fk.Convert.Engine.{Engine, Text, int}
use mulex_fk.Convert.Bytes.{whole, contents}
use mulex_fk.Convert.Encode.{MxGenericType, from_value, from_data, str512}
use mulex_fk.Convert.Decode.{astype}
use mulex_fk.Convert.Numbers.{
  Word, i8, i16, i32, i64, u8, u16, u32, u64, name, Fits, read_back, astype-from_value,
}
use mulex_fk.Stores.Maps.{get, put}
use mulex_fk.Stores.MapLaws.{get-put_self}
use mulex_fk.Calls.Jobs.{rpc, ◌>>=◌, ◌>>◌}
use mulex_fk.Calls.Servers.{run-bind, and_then, with_sent, Server, run}
use mulex_fk.Rdb.Access.{Types, read, write, get_key_type, write_typed}
use mulex_fk.Rdb.Caching.{type_reply, astype-type_reply}
use mulex_fk.Prelude.{length}
use mulex_fk.Prelude.Results.{>>=-ok_parts, ok_injective}
use mulex_fk.Convert.Encode.{value_bytes}
use mulex_fk.Convert.Bytes.{contents-whole, le_bytes}
use mulex_fk.Convert.Sized.{wrap_generic}
use mulex_fk.Convert.Engine.{Value}
use mulex_fk.Calls.Jobs.{attempt, launch}

-- What the server promises of a key: the id of its type, and that it gives the bytes that it was sent.
pub record IsDatabase (server : Server) : Type 1 where
  -- the key is there, with the type of that id
  pub HasType : server.State → MxGenericType → ℕ → Type 0
  -- the key has those bytes
  pub Holds : server.State → MxGenericType → List ℕ → Type 0
  pub tell :
      (w : server.State) (k : MxGenericType) (id : ℕ)
      → HasType w k id
      → (server.reply w (rpc "mulex::RdbGetKeyType" (k ∷ []) native)).0 ≡ ok (type_reply id)
  pub unmoved :
      (w : server.State) (k : MxGenericType)
      → (server.reply w (rpc "mulex::RdbGetKeyType" (k ∷ []) native)).1 ≡ w
  pub keep :
      (w : server.State) (k m : MxGenericType) (id : ℕ)
      → HasType w k id
      → Holds
          (server.reply w (rpc "mulex::RdbWriteValueDirect" (k ∷ m ∷ []) no_response)).1
          k
          (contents m.bytes)
  pub give :
      (w : server.State) (k : MxGenericType) (bytes : List ℕ)
      → Holds w k bytes
      → (server.reply w (rpc "mulex::RdbReadValueDirect" (k ∷ []) generic)).0
        ≡ ok (from_data (whole bytes) generic)

abbrev pub word_id : Word → ℕ
word_id i8 = 0
word_id i16 = 1
word_id i32 = 2
word_id i64 = 3
word_id u8 = 4
word_id u16 = 5
word_id u32 = 6
word_id u64 = 7

word_type : (v : Word) → type_from_typeid (word_id v) ≡ name v
unfolding type_from_typeid
word_type i8 = refl
word_type i16 = refl
word_type i32 = refl
word_type i64 = refl
word_type u8 = refl
word_type u16 = refl
word_type u32 = refl
word_type u64 = refl

module _ (E : Engine) where
  write_typed-word :
      (root key : Text) (value : Value E.Float) (v : Word)
      → write_typed E root key value (name v) ≡ (
          attempt (str512 E key native) >>= λ k.
          attempt (from_value E value (name v) generic) >>= λ m.
          launch (rpc "mulex::RdbWriteValueDirect" (k ∷ m ∷ []) no_response))
  write_typed-word root key value i8 = refl
  write_typed-word root key value i16 = refl
  write_typed-word root key value i32 = refl
  write_typed-word root key value i64 = refl
  write_typed-word root key value u8 = refl
  write_typed-word root key value u16 = refl
  write_typed-word root key value u32 = refl
  write_typed-word root key value u64 = refl

  from_value-whole :
      (value : Value E.Float) (t : TypeName) (m : MxGenericType)
      → from_value E value t generic ≡ ok m
      → from_data (whole (contents m.bytes)) generic ≡ m
  unfolding from_value
  from_value-whole value t m e =
      let (raw, wrapped, _) = >>=-ok_parts (value_bytes E value t) e in
      let same : record { bytes = whole (le_bytes 8 (length raw) ++ raw); intype = generic } ≡ m =
        ok_injective (sym (wrap_generic raw) ∙ wrapped) in
      rw (← same)
        (ap (λ b. from_data (whole b) generic) (contents-whole (le_bytes 8 (length raw) ++ raw)))

  module _ (server : Server) (db : IsDatabase server) where
    module _ (root key : Text) (v : Word) (z : ℤ) (k m : MxGenericType) (w : server.State)
        (made : str512 E (root ++ key) native ≡ ok k)
        (made_m : from_value E (Engine.number (int z)) (name v) generic ≡ ok m)
        (seen : astype E m (name v) ≡ ok (read_back E v z))
        (typed : db.HasType w k (word_id v)) where
      -- The server after the write.
      abbrev written : server.State
      written = (server.reply w (rpc "mulex::RdbWriteValueDirect" (k ∷ m ∷ []) no_response)).1

      run-write : run server (write E root key (Engine.number (int z))) [] w ≡ record {
        result = ok tt;
        state = put [] (root ++ key) (name v);
        world = written;
        sent =
            rpc "mulex::RdbGetKeyType" (k ∷ []) native
            ∷ rpc "mulex::RdbWriteValueDirect" (k ∷ m ∷ []) no_response
            ∷ [];
      }
      unfolding run write get_key_type
      run-write =
          let told = db.tell w k (word_id v) typed in
          let new : get {V = TypeName} [] (root ++ key) ≡ none = unfold get in refl in
          rw
            (
              new,
              made,
              run,
              told,
              db.unmoved w k,
              astype-type_reply E (word_id v),
              word_type v,
              write_typed-word root (root ++ key) (Engine.number (int z)) v,
              made,
              made_m,
            )
            refl

      run-read :
          (types : Types)
          → get types (root ++ key) ≡ some (name v)
          → run server (read E root key) types written ≡ record {
            result = ok (read_back E v z);
            state = types;
            world = (server.reply written (rpc "mulex::RdbReadValueDirect" (k ∷ []) generic)).1;
            sent = rpc "mulex::RdbReadValueDirect" (k ∷ []) generic ∷ [];
          }
      unfolding run read get_key_type
      run-read types known =
          let given = db.give written k (contents m.bytes) (db.keep w k m (word_id v) typed) in
          let same = from_value-whole (Engine.number (int z)) (name v) m made_m in
          rw (known, made, run, given, same, seen) refl

    -- An integer that fits the type of a key, written on a new handle and then read, comes back,
    -- if the key fits a text of 512 bytes and the server has it with that type and keeps what it
    -- is sent. The type is asked for once.
    pub read-write :
        (root key : Text) (v : Word) (z : ℤ) (k : MxGenericType) (w : server.State)
        → Fits v z
        → str512 E (root ++ key) native ≡ ok k
        → db.HasType w k (word_id v)
        → (m : MxGenericType) × ((run server
              (write E root key (Engine.number (int z)) >> read E root key)
              []
              w).result
            ≡ ok (read_back E v z))
          × ((run server (write E root key (Engine.number (int z)) >> read E root key) [] w).sent
              ≡ rpc "mulex::RdbGetKeyType" (k ∷ []) native
                ∷ rpc "mulex::RdbWriteValueDirect" (k ∷ m ∷ []) no_response
                ∷ rpc "mulex::RdbReadValueDirect" (k ∷ []) generic
                ∷ [])
    read-write root key v z k w fits made typed =
        let (m, made_m, seen) = astype-from_value E v z generic fits in
        let known = get-put_self [] (root ++ key) (name v) in
        let both =
          run-bind server (write E root key (Engine.number (int z))) (λ _. read E root key) [] w
          ∙ ap (λ o. and_then server o (λ _. read E root key))
              (run-write root key v z k m w made made_m seen typed)
          ∙ ap
              (with_sent (
                rpc "mulex::RdbGetKeyType" (k ∷ []) native
                ∷ rpc "mulex::RdbWriteValueDirect" (k ∷ m ∷ []) no_response
                ∷ []))
              (run-read root key v z k m w made made_m seen typed _ known) in
        (m, ap (λ o. o.result) both, ap (λ o. o.sent) both)
