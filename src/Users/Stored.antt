-- ===== src/Users/Stored.antt =====
-- usermeta.ts: what comes back of what is stored for a user.
use mulex_fk.Prelude.{
  ℕ, ◌+◌, ◌^◌, ◌<◌, ◌≡◌, refl, ap, sym, ◌∙◌, Option, none, some, List, [], ◌∷◌, ◌++◌, append-nil,
  length, length-append, drop, drop-append_eq, arith, if◌then◌else◌,
}
use mulex_fk.Prelude.Keys.{number_key, list_key, ◌==◌}
use mulex_fk.Prelude.Results.{ok}
use mulex_fk.Convert.Names.{generic, no_response, bytearray}
use mulex_fk.Convert.Engine.{Engine, IsStandard, Text}
use mulex_fk.Convert.Bytes.{whole, le_bytes, length-le_bytes}
use mulex_fk.Convert.Encode.{MxGenericType, from_data, make_data}
use mulex_fk.Convert.Sized.{wrap_generic}
use mulex_fk.Convert.Unpack.{unpack}
use mulex_fk.Convert.Unpack.Cells.{array}
use mulex_fk.Convert.Unpack.Rows.{unpack-rows}
use mulex_fk.Calls.Jobs.{Request, rpc, launch, ◌>>◌}
use mulex_fk.Calls.Servers.{Server, run, run-bind, after_request}
use mulex_fk.Calls.Known.{run-await, run-attempt, run-attempt_end}
use mulex_fk.Stores.Maps
use mulex_fk.Stores.MapLaws.{get-put}
use mulex_fk.Users.Meta.{
  Json, first_bytes, send_payload, object_of, get_all, send_meta_object, value_at, get_meta, or_new,
  set_meta,
}

abbrev pub meta_get : Request
meta_get = rpc "mulex::PdbUserMetadataGet" [] generic

abbrev pub meta_set : MxGenericType → Request
meta_set payload = rpc "mulex::PdbUserMetadataSet" (payload ∷ []) no_response

-- A byte array, behind the size of the reply and its own.
abbrev pub array_reply : (size raw : List ℕ) → MxGenericType
array_reply size raw = from_data (whole (size ++ (le_bytes 8 (length raw) ++ raw))) generic

-- What makeData makes of bytes.
abbrev pub array_payload : List ℕ → MxGenericType
array_payload raw = from_data (whole (le_bytes 8 (length raw) ++ raw)) generic

-- A server that keeps some bytes for the user: it gives them, and takes others.
pub record IsMetaStore (server : Server) (stored : server.State → List ℕ) : Type 0 where
  pub size : server.State → List ℕ
  pub eight : (w : server.State) → length (size w) ≡ 8
  pub gives :
      (w : server.State) → (server.reply w meta_get).0 ≡ ok (array_reply (size w) (stored w))
  pub stays : (w : server.State) → stored (server.reply w meta_get).1 ≡ stored w
  pub takes :
      (w : server.State) (payload : MxGenericType)
      → stored (server.reply w (meta_set payload)).1 ≡ drop 8 payload.bytes.buffer

-- An object whose text is not empty, and says the object with its keys in some order.
pub record IsWritten (E : Engine) (json : Json) (object : List (Text × json.V)) : Type 0 where
  pub read : List (Text × json.V)
  pub reads : object_of E json (E.decode (E.encode (json.stringify object))) ≡ ok (some read)
  pub same : (key : Text) → Maps.get read key ≡ Maps.get object key
  pub short : length (E.encode (json.stringify object)) < 256 ^ 8

module _ (E : Engine) (std : IsStandard E) (json : Json) (server : Server)
    (stored : server.State → List ℕ) (v : IsMetaStore server stored) where
  open server use {State, reply}

  first_bytes-reply :
      (w : State) (fuel : ℕ)
      → length (stored w) < 256 ^ 8
      → 1 < fuel
      → first_bytes E json (unpack E fuel (array_reply (v.size w) (stored w)) (bytearray ∷ []))
        ≡ ok (stored w)
  first_bytes-reply w fuel short n =
      let raw : List ℕ = stored w in
      let laid : List ℕ = le_bytes 8 (length raw) ++ raw in
      let whole_row : (laid ++ []) ++ [] ≡ laid = append-nil (laid ++ []) ∙ append-nil laid in
      let got =
        (unpack-rows E std bytearray [] ((array raw ∷ []) ∷ []) (v.size w) fuel
          (((refl, (short, tt)), tt)) (omega arith) (v.eight w) n).0 in
      ap
        (λ bs.
          first_bytes E json
            (unpack E fuel (from_data (whole (v.size w ++ bs)) generic) (bytearray ∷ [])))
        (sym whole_row)
      ∙ ap (first_bytes E json) got

  -- What getAll gives, and what it leaves.
  run-get_all :
      {S : Type 0} (s : S) (w : State)
      → length (stored w) < 256 ^ 8
      → run server (get_all E json) s w ≡ record {
        result = object_of E json (E.decode (stored w));
        state = s;
        world = (reply w meta_get).1;
        sent = meta_get ∷ [];
      }
  unfolding get_all
  run-get_all s w short =
      let x = array_reply (v.size w) (stored w) in
      run-await server "mulex::PdbUserMetadataGet" [] generic x _ s w (v.gives w)
      ∙ ap (after_request meta_get) (
          run-attempt server _ (stored w) _ s (reply w meta_get).1 (
            first_bytes-reply w (length x.bytes.buffer + 1) short
              (omega (arith, v.eight w, length-append (v.size w))))
          ∙ run-attempt_end server (object_of E json (E.decode (stored w))) s (reply w meta_get).1)

  send_meta_object-payload :
      {S : Type 0} (object : List (Text × json.V))
      → send_meta_object E json {S = S} object
        ≡ launch (meta_set (array_payload (E.encode (json.stringify object))))
  unfolding send_meta_object make_data
  send_meta_object-payload object =
      ap (send_payload E json) (wrap_generic (E.encode (json.stringify object)))

  -- Once an object is set, the bytes of its text are stored.
  stored-payload :
      (raw : List ℕ) (w : State) → stored (reply w (meta_set (array_payload raw))).1 ≡ raw
  stored-payload raw w =
      v.takes w (array_payload raw)
      ∙ drop-append_eq 8 (le_bytes 8 (length raw)) raw (sym (length-le_bytes 8 (length raw)))

  run-get_meta :
      {S : Type 0} (key : Text) (object : Option (List (Text × json.V))) (s : S) (w : State)
      → length (stored w) < 256 ^ 8
      → object_of E json (E.decode (stored w)) ≡ ok object
      → (run server (get_meta E json key) s w).result ≡ ok (value_at E json key object)
  unfolding get_meta
  run-get_meta key object s w short e =
      ap (λ o. o.result) (run-bind server (get_all E json) _ s w)
      ∙ rw (run-get_all s w short, e) (unfold run in refl)

  value_at-or_new :
      (key : Text) (old : Option (List (Text × json.V)))
      → Maps.get (or_new E json old) key ≡ value_at E json key old
  value_at-or_new key none = unfold Maps.get in refl
  value_at-or_new key (some object) = refl

  module _ (key : Text) (value : json.V) (old : Option (List (Text × json.V))) {S : Type 0} (s : S)
      (w : State) (short : length (stored w) < 256 ^ 8)
      (is_old : object_of E json (E.decode (stored w)) ≡ ok old) where
    abbrev new : List (Text × json.V)
    new = Maps.put (or_new E json old) key value

    abbrev payload : MxGenericType
    payload = array_payload (E.encode (json.stringify new))

    abbrev set_world : State
    set_world = (reply (reply w meta_get).1 (meta_set payload)).1

    run-set_meta : run server (set_meta E json key value) s w ≡ record {
      result = ok tt;
      state = s;
      world = set_world;
      sent = meta_get ∷ (meta_set payload ∷ []);
    }
    unfolding set_meta
    run-set_meta =
        run-bind server (get_all E json) _ s w
        ∙ rw (run-get_all s w short, is_old, send_meta_object-payload {S = S} new)
            (unfold run in refl)

    get_meta-set :
        (j : Text)
        → IsWritten E json new
        → (run server (set_meta E json key value >> get_meta E json j) s w).result
          ≡ ok (if key == j then some value else value_at E json j old)
    get_meta-set j r =
        let kept : stored set_world ≡ E.encode (json.stringify new) =
          stored-payload (E.encode (json.stringify new)) (reply w meta_get).1 in
        let got =
          run-get_meta j (some r.read) s set_world (rw kept r.short)
            (ap (λ bs. object_of E json (E.decode bs)) kept ∙ r.reads) in
        let found : Maps.get r.read j ≡ (if key == j then some value else value_at E json j old) =
          r.same j
          ∙ (get-put (or_new E json old) key value j
              ∙ ap (λ o. if key == j then some value else o) (value_at-or_new j old)) in
        ap (λ o. o.result) (run-bind server (set_meta E json key value) _ s w)
        ∙ rw run-set_meta (got ∙ ap ok found)

-- On a server that keeps the bytes that it is sent for the user, a value that is set for a key is what the
-- key then gives, and each other key gives what it gave before, or nothing if nothing was stored. The bytes
-- stored before are no text or the text of an object, and the text of the new object says its keys.
pub get_meta-set_meta :
    (E : Engine) (std : IsStandard E) (json : Json) (server : Server)
    (stored : server.State → List ℕ) (key j : Text) (value : json.V)
    (old : Option (List (Text × json.V))) {S : Type 0} (s : S) (w : server.State)
    → IsMetaStore server stored
    → length (stored w) < 256 ^ 8
    → object_of E json (E.decode (stored w)) ≡ ok old
    → IsWritten E json (Maps.put (or_new E json old) key value)
    → (run server (set_meta E json key value >> get_meta E json j) s w).result
      ≡ ok (if key == j then some value else value_at E json j old)
get_meta-set_meta E std json server stored key j value old s w v short is_old r =
    get_meta-set E std json server stored v key value old s w short is_old j r
