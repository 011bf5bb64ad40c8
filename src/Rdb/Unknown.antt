-- ===== src/Rdb/Unknown.antt =====
-- rdb.ts: a handle that has been told that a key has no type, whatever is done with it then.
use mulex_fk.Prelude.{
  ℕ, ◌≤◌, ◌≡◌, refl, ap, ◌∙◌, false, Bool-cases, inl, inr, Option, none, some, List, [], ◌∷◌, ◌++◌,
}
use mulex_fk.Prelude.Keys.{number_key, list_key, same_list_iff, ◌==◌}
use mulex_fk.Prelude.Results.{ok}
use mulex_fk.Convert.Names.{TypeName, native, generic, no_response, empty}
use mulex_fk.Convert.Engine.{Engine, Text, Value}
use mulex_fk.Convert.Encode.{MxGenericType, from_value, str512}
use mulex_fk.Stores.Maps.{get, put}
use mulex_fk.Stores.MapLaws.{get-put, get-put_self}
use mulex_fk.Calls.Jobs.{Job, rpc, done, attempt, launch, ◌>>=◌}
use mulex_fk.Calls.Servers.{Server, run}
use mulex_fk.Calls.Invariants.{Keeps, keeps, done-Keeps}
use mulex_fk.Rdb.Access.{
  Types, ask_type, known_or_ask, get_key_type, exists, read, write_typed, write, create, delete,
  watch, unwatch,
}
use mulex_fk.Rdb.Caching.{type_reply, write-asked, write-known}

-- The methods of a handle with their arguments.
pub data Operation (F : Type 0) : Type 0 where
  checks reads deletes watches unwatches : Text → Operation F
  writes : Text → Value F → Operation F
  creates : Text → TypeName → Value F → ℕ → Operation F

module _ (E : Engine) (root : Text) where
  open E use {Float}

  unfoldable pub operate : Operation Float → Job Types (Unit {0})
  unfolding exists read write create delete watch unwatch
  operate (checks key) = exists E root key >>= λ x. done tt
  operate (reads key) = read E root key >>= λ x. done tt
  operate (deletes key) = delete E root key
  operate (watches key) = watch E root key
  operate (unwatches key) = unwatch E root key
  operate (writes key value) = write E root key value
  operate (creates key type value count) = create E root key type value count

  module _ (server : Server) where
    open server use {State, reply}

    -- The types of the handle after some operations, before each of which the server is in any state.
    abbrev pub types_after : List (Operation Float × State) → Types → Types
    types_after [] types = types
    types_after ((op, w) ∷ ops) types = types_after ops (run server (operate op) types w).state

    module _ (key : Text) where
      -- The handle takes it that the key has no type.
      abbrev IsUnknown : Types → Type 0
      IsUnknown types = get types key ≡ some empty

      put-IsUnknown :
          (k : Text) (type : TypeName)
          → (k == key) ≡ false
          → (types : Types) → IsUnknown types
          → IsUnknown (put types k type)
      put-IsUnknown k type apart types h = get-put types k type key ∙ rw apart h

      ask_type-Keeps : (k : Text) → (k == key) ≡ false → Keeps server IsUnknown (ask_type E k)
      ask_type-Keeps k apart = search (keeps, put-IsUnknown) depth 30

      known_or_ask-IsUnknown :
          (k : Text) (types : Types) (w : State) (found : Option TypeName)
          → get types k ≡ found
          → IsUnknown types
          → IsUnknown (run server (known_or_ask E k found) types w).state
      unfolding run Keeps
      known_or_ask-IsUnknown k types w (some type) e h = h
      known_or_ask-IsUnknown k types w none e h = elim (Bool-cases (k == key)) [
        | inl here ↦
            let same : k ≡ key = (same_list_iff k key).0 here in
            let there : get types k ≡ some empty = rw same h in absurd cc
        | inr other ↦ ask_type-Keeps k other types w h
      ]

      get_key_type-Keeps : (k : Text) → Keeps server IsUnknown (get_key_type E k)
      unfolding run Keeps get_key_type
      get_key_type-Keeps k types w h = known_or_ask-IsUnknown k types w (get types k) refl h

      send_value-Keeps :
          (k : Text) (value : Value Float) (type : TypeName)
          → Keeps server IsUnknown (
              attempt (str512 E k native) >>= λ arg.
              attempt (from_value E value type generic) >>= λ bytes.
              launch (rpc "mulex::RdbWriteValueDirect" (arg ∷ bytes ∷ []) no_response))
      send_value-Keeps k value type = search (keeps)

      write_typed-Keeps :
          (k : Text) (value : Value Float) (type : TypeName)
          → Keeps server IsUnknown (write_typed E root k value type)
      write_typed-Keeps k value type =
          elim type as (λ t. Keeps server IsUnknown (write_typed E root k value t)) [
            | empty ↦ done-Keeps server IsUnknown tt
            | _ ↦ send_value-Keeps k value _
          ]

      operate-Keeps : (op : Operation Float) → Keeps server IsUnknown (operate op)
      unfolding operate exists read write create delete watch unwatch
      operate-Keeps (checks k) = search (keeps)
      operate-Keeps (reads k) = search (keeps, get_key_type-Keeps)
      operate-Keeps (deletes k) = search (keeps)
      operate-Keeps (watches k) = search (keeps)
      operate-Keeps (unwatches k) = search (keeps)
      operate-Keeps (writes k value) = search (keeps, get_key_type-Keeps, write_typed-Keeps)
      operate-Keeps (creates k type value count) = search (keeps) depth 40 fits 3000

      types_after-IsUnknown :
          (ops : List (Operation Float × State)) (types : Types)
          → IsUnknown types
          → IsUnknown (types_after ops types)
      unfolding Keeps
      types_after-IsUnknown [] types h = h
      types_after-IsUnknown ((op, w) ∷ ops) types h =
          types_after-IsUnknown ops (run server (operate op) types w).state
            (operate-Keeps op types w h)

    -- A key leaves room for its NUL, and the handle has no type of it yet. If the server answers the first
    -- write of the key with the id of no type, that write asks for the type alone, and a write of the key
    -- on the same handle sends nothing and ends well from then on, whatever is done with the handle in
    -- between, one operation after another: reads, writes, a creation or a deletion of any keys, this one
    -- too, whatever the server has become before each of them.
    pub write-after_unknown :
        (key : Text) (first later : Value Float) (types : Types) (w w' : State) (k : MxGenericType)
        (id : ℕ) (ops : List (Operation Float × State))
        → str512 E (root ++ key) native ≡ ok k
        → get types (root ++ key) ≡ none
        → (reply w (rpc "mulex::RdbGetKeyType" (k ∷ []) native)).0 ≡ ok (type_reply id)
        → 12 ≤ id
        → ((run server (write E root key first) types w).sent
            ≡ rpc "mulex::RdbGetKeyType" (k ∷ []) native ∷ [])
          × ((run server
                (write E root key later)
                (types_after ops (run server (write E root key first) types w).state)
                w').sent
              ≡ [])
          × ((run server
                (write E root key later)
                (types_after ops (run server (write E root key first) types w).state)
                w').result
              ≡ ok tt)
    write-after_unknown key first later types w w' k id ops made new told large =
        let e = write-asked E server root key first types w k id made told new large in
        let types' : Types = types_after ops (run server (write E root key first) types w).state in
        let at_first : get (run server (write E root key first) types w).state (root ++ key)
            ≡ some empty =
          rw e (get-put_self types (root ++ key) empty) in
        let known = types_after-IsUnknown (root ++ key) ops _ at_first in
        let last = write-known E server root key later types' w' known in
        (ap (λ o. o.sent) e, ap (λ o. o.sent) last, ap (λ o. o.result) last)
