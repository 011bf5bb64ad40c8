-- ===== src/Users/Forms.antt =====
-- Dashboard.tsx: what the forms for a password and for a new user come to.
use mulex_fk.Prelude.{◌≡◌, refl, ap, Bool, true, false, [], ◌∷◌, if◌then◌else◌, some, ◌++◌}
use mulex_fk.Prelude.Keys.{number_key, list_key, ◌==◌}
use mulex_fk.Prelude.Results.{Result, ok, throw}
use mulex_fk.Convert.Names.{native}
use mulex_fk.Convert.Engine.{Engine}
use mulex_fk.Convert.Encode.{MxGenericType, str512}
use mulex_fk.Calls.Jobs.{Job, Request, rpc, attempt, ◌>>=◌}
use mulex_fk.Calls.Servers.{Server, Outcome, run, after_request, refused}
use mulex_fk.Users.Accounts.{
  Accounts, clear_failed, clear_ok, passwords_differ, old_password_incorrect, password_changed,
  create_failed, user_created, said_yes, after_change, after_create, send_change, send_create,
  change_password, create_new_user,
}

-- The reply to a form's one request: yes or no, or an exception.
abbrev pub verdict : (E : Engine) → Result MxGenericType → Result Bool
verdict E (ok res) = said_yes E res
verdict E (throw e) = throw e

module _ (E : Engine) (server : Server) (s : Accounts E.Float) where
  open server use {State, reply}

  abbrev Ended : Type 0
  Ended = Outcome State (Accounts E.Float) (Unit {0})

  -- The form once it is answered: yes and no make their changes, an exception makes none.
  abbrev pub answered :
      (change : Bool → Accounts E.Float → Accounts E.Float) → Request → Result Bool → State → Ended
  answered change q (ok b) w = record {
    result = ok tt;
    state = change b s;
    world = w;
    sent = q ∷ [];
  }
  answered change q (throw e) w = record { result = throw e; state = s; world = w; sent = q ∷ [] }

  -- Nothing is sent.
  abbrev pub differing : State → Ended
  differing w = record {
    result = ok tt;
    state = record s {
      change_failed = some passwords_differ;
      timers = s.timers ++ (clear_failed ∷ []);
    };
    world = w;
    sent = [];
  }

  module _ (change : Bool → Accounts E.Float → Accounts E.Float)
      (after : Bool → Job (Accounts E.Float) (Unit {0})) (q : Request)
      (changes : (b : Bool) (w : State)
        → run server (after b) s w
          ≡ record { result = ok tt; state = change b s; world = w; sent = [] }) where
    flag-answered :
        (r : Result Bool) (w : State)
        → after_request q (run server (attempt r >>= after) s w) ≡ answered change q r w
    unfolding run
    flag-answered (ok b) w = ap (after_request q) (changes b w)
    flag-answered (throw e) w = refl

    reply-answered :
        (r : Result MxGenericType) (w : State)
        → after_request q (elim r [
          | ok res ↦ run server (attempt (said_yes E res) >>= after) s w
          | throw e ↦ refused e s w
        ])
          ≡ answered change q (verdict E r) w
    reply-answered (ok res) w = flag-answered (said_yes E res) w
    reply-answered (throw e) w = refl

-- What the form for a password shows after a no and after a yes; a timer takes each message off again.
abbrev pub on_change : (E : Engine) → Bool → Accounts E.Float → Accounts E.Float
on_change E false s = record s {
  change_failed = some old_password_incorrect;
  timers = s.timers ++ (clear_failed ∷ []);
}
on_change E true s = record s {
  old_password = [];
  new_password = [];
  new_password_conf = [];
  change_ok = some password_changed;
  timers = s.timers ++ (clear_ok ∷ []);
}

-- The same of the form for a new user, whose name stays.
abbrev pub on_create : (E : Engine) → Bool → Accounts E.Float → Accounts E.Float
on_create E false s = record s {
  change_failed = some create_failed;
  timers = s.timers ++ (clear_failed ∷ []);
}
on_create E true s = record s {
  new_user_password = [];
  new_user_password_conf = [];
  new_user_role = [];
  change_ok = some user_created;
  timers = s.timers ++ (clear_ok ∷ []);
}

abbrev pub change_request : (old new : MxGenericType) → Request
change_request old new = rpc "mulex::PdbUserChangePassword" (old ∷ new ∷ []) native

abbrev pub create_request : (name password role : MxGenericType) → Request
create_request name password role = rpc "mulex::PdbUserCreate" (name ∷ password ∷ role ∷ []) native

module _ (E : Engine) (server : Server) (s : Accounts E.Float) (w : server.State) where
  open server use {State, reply}

  after_change-changes :
      (b : Bool) (w' : State)
      → run server (after_change E b) s w'
        ≡ record { result = ok tt; state = on_change E b s; world = w'; sent = [] }
  unfolding run
  after_change-changes true w' = refl
  after_change-changes false w' = refl

  after_create-changes :
      (b : Bool) (w' : State)
      → run server (after_create E b) s w'
        ≡ record { result = ok tt; state = on_create E b s; world = w'; sent = [] }
  unfolding run
  after_create-changes true w' = refl
  after_create-changes false w' = refl

  send_change-answered :
      (old new : MxGenericType) (same : Bool)
      → str512 E s.old_password native ≡ ok old
      → str512 E s.new_password native ≡ ok new
      → run server (send_change E s same) s w ≡ (
          if same
          then answered E server s
              (on_change E)
              (change_request old new)
              (verdict E (reply w (change_request old new)).0)
              (reply w (change_request old new)).1
          else differing E server s w)
  unfolding run
  send_change-answered old new false o n = refl
  send_change-answered old new true o n =
      rw (o, n)
        (reply-answered E server s (on_change E) (after_change E) (change_request old new)
          after_change-changes (reply w (change_request old new)).0
          (reply w (change_request old new)).1)

  send_create-answered :
      (name password role : MxGenericType) (same : Bool)
      → str512 E s.new_user_username native ≡ ok name
      → str512 E s.new_user_password native ≡ ok password
      → str512 E s.new_user_role native ≡ ok role
      → run server (send_create E s same) s w ≡ (
          if same
          then answered E server s
              (on_create E)
              (create_request name password role)
              (verdict E (reply w (create_request name password role)).0)
              (reply w (create_request name password role)).1
          else differing E server s w)
  unfolding run
  send_create-answered name password role false n p r = refl
  send_create-answered name password role true n p r =
      rw (n, p, r)
        (reply-answered E server s (on_create E) (after_create E)
          (create_request name password role) after_create-changes
          (reply w (create_request name password role)).0
          (reply w (create_request name password role)).1)

-- Changing the password, whatever the server does: if the two fields of the new one differ, nothing is sent
-- and the form says so; if they agree, the one request is the old and the new password, a yes empties the
-- three fields and reports it, a no is reported and leaves them, and an exception changes nothing. Each
-- report sets the timer that takes it off. The old and the new password leave room for their NUL.
pub change_password-answered :
    (E : Engine) (server : Server) (s : Accounts E.Float) (w : server.State)
    (old new : MxGenericType)
    → str512 E s.old_password native ≡ ok old
    → str512 E s.new_password native ≡ ok new
    → run server (change_password E) s w ≡ (
        if s.new_password == s.new_password_conf
        then answered E server s
            (on_change E)
            (change_request old new)
            (verdict E (server.reply w (change_request old new)).0)
            (server.reply w (change_request old new)).1
        else differing E server s w)
unfolding run change_password
change_password-answered E server s w old new o n =
    send_change-answered E server s w old new (s.new_password == s.new_password_conf) o n

-- Making a user, whatever the server does: if the two fields of the password differ, nothing is sent and
-- the form says so; if they agree, the one request is the name, the password and the role, a yes empties
-- the two fields of the password and that of the role and reports it, a no is reported and leaves them, and
-- an exception changes nothing. Each report sets the timer that takes it off. The three texts leave room for
-- their NUL.
pub create_new_user-answered :
    (E : Engine) (server : Server) (s : Accounts E.Float) (w : server.State)
    (name password role : MxGenericType)
    → str512 E s.new_user_username native ≡ ok name
    → str512 E s.new_user_password native ≡ ok password
    → str512 E s.new_user_role native ≡ ok role
    → run server (create_new_user E) s w ≡ (
        if s.new_user_password == s.new_user_password_conf
        then answered E server s
            (on_create E)
            (create_request name password role)
            (verdict E (server.reply w (create_request name password role)).0)
            (server.reply w (create_request name password role)).1
        else differing E server s w)
unfolding run create_new_user
create_new_user-answered E server s w name password role n p r =
    send_create-answered E server s w name password role
      (s.new_user_password == s.new_user_password_conf) n p r
