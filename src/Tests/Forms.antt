-- ===== src/Tests/Forms.antt =====
-- usermeta.ts and the forms of Dashboard.tsx against small servers.
use mulex_fk.Prelude.{ℕ, ◌≡◌, refl, arith, false, replicate, none, some, List, [], ◌∷◌, drop}
use mulex_fk.Prelude.Keys.{number_key, list_key, same_list}
use mulex_fk.Prelude.Results.{Result, ok}
use mulex_fk.Convert.Names.{native, generic, no_response}
use mulex_fk.Convert.Engine.{Text}
use mulex_fk.Convert.Bytes
use mulex_fk.Convert.Bytes.{whole}
use mulex_fk.Convert.Encode
use mulex_fk.Convert.Encode.{MxGenericType, from_data, str512}
use mulex_fk.Stores.Maps
use mulex_fk.Calls.Jobs.{Request, rpc, ◌>>◌}
use mulex_fk.Calls.Servers.{Server, run}
use mulex_fk.Users.Meta.{Json, set_meta, get_meta}
use mulex_fk.Users.Stored.{IsMetaStore, IsWritten, array_reply, get_meta-set_meta}
use mulex_fk.Users.Accounts.{Accounts, change_password}
use mulex_fk.Users.Forms.{answered, change_request, on_change, verdict, change_password-answered}
use mulex_fk.Tests.Engines.{ascii, ascii_std}

-- A server that keeps the bytes that it was last sent, and says yes to every other call.
abbrev eight : List ℕ
eight = 0 ∷ 0 ∷ 0 ∷ 0 ∷ 0 ∷ 0 ∷ 0 ∷ 0 ∷ []

abbrev keep_bytes : List ℕ → Request → Result MxGenericType × List ℕ
keep_bytes kept (rpc method [] generic) = (ok (array_reply eight kept), kept)
keep_bytes kept (rpc method (payload ∷ []) no_response) =
    (ok (from_data (whole []) native), drop 8 payload.bytes.buffer)
keep_bytes kept _ = (ok (from_data (whole (1 ∷ [])) native), kept)

abbrev keeper : Server
keeper = record { State = List ℕ; reply = keep_bytes }

keeper-IsMetaStore : IsMetaStore keeper (λ w. w)
keeper-IsMetaStore = record {
  size = λ w. eight;
  eight = λ w. refl;
  gives = λ w. refl;
  stays = λ w. refl;
  takes = λ w payload. refl;
}

-- Objects with the key 'a' at most, and a number for its value.
abbrev write_object : List (Text × ℕ) → Text
write_object [] = 123 ∷ []
write_object ((key, n) ∷ rest) = 97 ∷ (n ∷ [])

abbrev read_object : Text → Result (List (Text × ℕ))
read_object (c ∷ (n ∷ [])) = ok ((97 ∷ [], n) ∷ [])
read_object _ = ok []

abbrev small_json : Json
small_json = record { V = ℕ; parse = read_object; stringify = write_object }

written : IsWritten ascii small_json (Maps.put [] (97 ∷ []) 5)
unfolding Maps.put
written = record { read = (97 ∷ [], 5) ∷ []; reads = refl; same = λ key. refl; short = omega arith }

get_meta-set_meta_example :
    (run keeper
      (set_meta ascii small_json (97 ∷ []) 5 >> get_meta ascii small_json (97 ∷ []))
      tt
      []).result
    ≡ ok (some 5)
unfolding same_list
get_meta-set_meta_example =
    get_meta-set_meta ascii ascii_std small_json keeper (λ w. w) (97 ∷ []) (97 ∷ []) 5 none tt []
      keeper-IsMetaStore (omega arith) refl written

abbrev changing : Accounts Unit
changing = record {
  old_password = 97 ∷ [];
  new_password = 98 ∷ [];
  new_password_conf = 98 ∷ [];
  change_failed = none;
  change_ok = none;
  avatar_url = none;
  new_user_username = [];
  new_user_password = [];
  new_user_password_conf = [];
  new_user_role = [];
  user_delete = [];
  all_roles = [];
  all_users = [];
  avatar_popup = false;
  timers = [];
}

abbrev wire_old : MxGenericType
wire_old = from_data (whole (97 ∷ replicate 511 0)) native

abbrev wire_new : MxGenericType
wire_new = from_data (whole (98 ∷ replicate 511 0)) native

wire_old_lem : str512 ascii (97 ∷ []) native ≡ ok wire_old
unfolding str512 Encode.from_value Encode.value_bytes Bytes.set_bytes
wire_old_lem = refl

wire_new_lem : str512 ascii (98 ∷ []) native ≡ ok wire_new
unfolding str512 Encode.from_value Encode.value_bytes Bytes.set_bytes
wire_new_lem = refl

change_password-answered_example :
    run keeper (change_password ascii) changing []
    ≡ answered ascii keeper changing
        (on_change ascii)
        (change_request wire_old wire_new)
        (verdict ascii (ok (from_data (whole (1 ∷ [])) native)))
        []
unfolding same_list
change_password-answered_example =
    change_password-answered ascii keeper changing [] wire_old wire_new wire_old_lem wire_new_lem
