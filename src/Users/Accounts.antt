-- ===== src/Users/Accounts.antt =====
-- Dashboard.tsx: the page of the accounts.
use mulex_fk.Prelude.{
  ℕ, suc, ◌+◌, Bool, true, false, Option, none, some, List, [], ◌∷◌, ◌++◌, length, leb,
}
use mulex_fk.Prelude.Int.{ℤ, pos, negsuc}
use mulex_fk.Prelude.Keys.{number_key, list_key, ◌==◌}
use mulex_fk.Prelude.Results.{Result, ok, throw, type_error}
use mulex_fk.Convert.Names.{TypeName, native, generic, bool, int32, string}
use mulex_fk.Convert.Names
use mulex_fk.Convert.Engine.{Engine, Text, int}
use mulex_fk.Convert.Encode.{MxGenericType, str512}
use mulex_fk.Convert.Decode.{Output, boolean, booleans, astype}
use mulex_fk.Convert.Unpack
use mulex_fk.Convert.Unpack.{Field, Unpacked, rows, unpack}
use mulex_fk.Calls.Jobs.{Job, await, modify, get, attempt, ◌>>=◌, ◌>>◌}

pub record Listed : Type 0 where
  pub name : Text
  pub allowed : Bool

pub data Message : Type 0 where
  passwords_differ old_password_incorrect password_changed : Message
  create_failed user_created : Message
  delete_self delete_failed user_deleted : Message

-- The callback of a timer: `setChangeFailed('')` or `setChangeOK('')`.
pub data Timer : Type 0 where
  clear_failed clear_ok : Timer

-- The signals of the page, and the timers that it has set, which all run 5 seconds later.
pub record Accounts (F : Type 0) : Type 0 where
  pub old_password : Text
  pub new_password : Text
  pub new_password_conf : Text
  pub change_failed : Option Message
  pub change_ok : Option Message
  pub avatar_url : Option (Output F)
  pub new_user_username : Text
  pub new_user_password : Text
  pub new_user_password_conf : Text
  pub new_user_role : Text
  pub user_delete : Text
  pub all_roles : List Listed
  pub all_users : List Listed
  pub avatar_popup : Bool
  pub timers : List Timer

abbrev pub fail : {F : Type 0} → Message → Accounts F → Accounts F
fail m s = record s { change_failed = some m; timers = s.timers ++ (clear_failed ∷ []) }

abbrev pub succeed : {F : Type 0} → Message → Accounts F → Accounts F
succeed m s = record s { change_ok = some m; timers = s.timers ++ (clear_ok ∷ []) }

abbrev run_callback : {F : Type 0} → Timer → Accounts F → Accounts F
run_callback clear_failed s = record s { change_failed = none }
run_callback clear_ok s = record s { change_ok = none }

-- The timer that was set first runs.
unfoldable pub on_timer : {F : Type 0} → Accounts F → Accounts F
on_timer s = elim s.timers [ [] ↦ s | t ∷ ts ↦ run_callback t (record s { timers = ts }) ]

-- `a >= b` on the ids of roles.
unfoldable pub is_at_least : ℤ → ℤ → Bool
is_at_least (pos m) (pos n) = leb n m
is_at_least (pos m) (negsuc n) = true
is_at_least (negsuc m) (pos n) = false
is_at_least (negsuc m) (negsuc n) = leb m n

-- `roles.roles.map((x, i) => ({ name: x.name, allowed: i >= idx }))`, from the index `i`; `i + 1 >= id`
-- for `idx = id - 1`.
unfoldable pub allow_roles : (id : ℤ) (i : ℕ) (names : List Text) → List Listed
unfolding is_at_least
allow_roles id i [] = []
allow_roles id i (name ∷ names) =
    record { name = name; allowed = is_at_least (pos (i + 1)) id } ∷ allow_roles id (suc i) names

module _ (E : Engine) where
  open E use {Float}

  -- `role` is the id of the role of the user who has logged in, and `roles` the names in roles.json.
  unfoldable pub setup_roles : (role : ℤ) (roles : List Text) → Accounts Float → Accounts Float
  unfolding allow_roles
  setup_roles role roles s = record s { all_roles = allow_roles role 0 roles }

  abbrev list_row : ℤ → List (Field Float) → Result Listed
  list_row role (Unpack.text name ∷ Unpack.number (int id) ∷ row) =
      ok (record { name = name; allowed = is_at_least id role })
  list_row role _ = throw type_error

  unfoldable pub list_users : ℤ → List (List (Field Float)) → Result (List Listed)
  unfolding is_at_least
  list_users role [] = ok []
  list_users role (row ∷ rs) = elim (list_row role row) [
    | throw e ↦ throw e
    | ok user ↦ elim (list_users role rs) [ ok users ↦ ok (user ∷ users) | throw e ↦ throw e ]
  ]

  abbrev pub users_of : ℤ → Unpacked Float → Result (List Listed)
  users_of role (rows rs) = list_users role rs
  users_of role (Unpack.throws e) = throw e
  users_of role _ = throw type_error

  unfoldable pub setup_users : (role : ℤ) → Job (Accounts Float) (Unit {0})
  unfolding list_users
  setup_users role = do
    reply ← await "mulex::PdbUserGetAllUsers" [] generic
    users ←
        attempt (
          users_of role
            (unpack E (length reply.bytes.buffer + 1) reply (Names.str512 ∷ int32 ∷ [])))
    modify (λ s. record s { all_users = users })

  -- onMount.
  unfoldable pub mount_accounts : (role : ℤ) (roles : List Text) → Job (Accounts Float) (Unit {0})
  mount_accounts role roles = do
    path ← await "mulex::PdbUserGetAvatarPath" [] native
    url ← attempt (astype E path string)
    modify (λ s. record s { avatar_url = some url })
    modify (setup_roles role roles)
    setup_users role

  abbrev pub is_true : Output Float → Bool
  is_true (boolean b) = b
  is_true (booleans bs) = true
  is_true _ = false

  -- `!res.astype('bool')`
  abbrev pub said_yes : MxGenericType → Result Bool
  said_yes res = elim (astype E res bool) [ ok flag ↦ ok (is_true flag) | throw e ↦ throw e ]

  abbrev pub clear_passwords : Accounts Float → Accounts Float
  clear_passwords s = record s { new_password = []; new_password_conf = []; old_password = [] }

  abbrev pub after_change : Bool → Job (Accounts Float) (Unit {0})
  after_change false = modify (fail old_password_incorrect)
  after_change true = modify (λ s. clear_passwords (succeed password_changed s))

  abbrev pub send_change : Accounts Float → Bool → Job (Accounts Float) (Unit {0})
  send_change s false = modify (fail passwords_differ)
  send_change s true = do
    old ← attempt (str512 E s.old_password native)
    new ← attempt (str512 E s.new_password native)
    res ← await "mulex::PdbUserChangePassword" (old ∷ new ∷ []) native
    yes_or_no ← attempt (said_yes res)
    after_change yes_or_no

  unfoldable pub change_password : Job (Accounts Float) (Unit {0})
  change_password = do s ← get; send_change s (s.new_password == s.new_password_conf)

  abbrev pub clear_new_user : Accounts Float → Accounts Float
  clear_new_user s = record s {
    new_user_password = [];
    new_user_password_conf = [];
    new_user_role = [];
  }

  abbrev pub after_create : Bool → Job (Accounts Float) (Unit {0})
  after_create false = modify (fail create_failed)
  after_create true = modify (λ s. clear_new_user (succeed user_created s))

  abbrev pub send_create : Accounts Float → Bool → Job (Accounts Float) (Unit {0})
  send_create s false = modify (fail passwords_differ)
  send_create s true = do
    name ← attempt (str512 E s.new_user_username native)
    password ← attempt (str512 E s.new_user_password native)
    role ← attempt (str512 E s.new_user_role native)
    res ← await "mulex::PdbUserCreate" (name ∷ password ∷ role ∷ []) native
    yes_or_no ← attempt (said_yes res)
    after_create yes_or_no

  unfoldable pub create_new_user : Job (Accounts Float) (Unit {0})
  create_new_user = do s ← get; send_create s (s.new_user_password == s.new_user_password_conf)

  -- setupUsers is not awaited: setUserDelete runs before the reply to it. What it throws goes nowhere.
  abbrev pub after_user_delete : (role : ℤ) → Bool → Job (Accounts Float) (Unit {0})
  after_user_delete role false = modify (fail delete_failed)
  after_user_delete role true = do
    modify (λ s. record (succeed user_deleted s) { user_delete = [] })
    setup_users role

  abbrev pub send_delete : (role : ℤ) → Accounts Float → Bool → Job (Accounts Float) (Unit {0})
  send_delete role s true = modify (fail delete_self)
  send_delete role s false = do
    name ← attempt (str512 E s.user_delete native)
    res ← await "mulex::PdbUserDelete" (name ∷ []) native
    yes_or_no ← attempt (said_yes res)
    after_user_delete role yes_or_no

  -- `user` is gLoggedUser().
  unfoldable pub delete_user : (user : Text) (role : ℤ) → Job (Accounts Float) (Unit {0})
  delete_user user role = do s ← get; send_delete role s (s.user_delete == user)
