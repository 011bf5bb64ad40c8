-- ===== src/Global/Named.antt =====
-- globalstate.ts: the callbacks of init_backend_status read and tell what their keys are about.
use mulex_fk.Prelude.{
  Option, some, [], ◌∷◌, ◌++◌, false, ◌≡◌, refl, ap, ◌∙◌, Bool-cases, inl, inr, ◌⊎◌, All, ◌==◌,
}
use mulex_fk.Prelude.Keys.{number_key, list_key}
use mulex_fk.Prelude.Literals.{units}
use mulex_fk.Prelude.Results.{Error, Result, ok, throw}
use mulex_fk.Convert.Names.{native, generic, bool, string, int64, uint32}
use mulex_fk.Convert.Engine.{Engine, Text}
use mulex_fk.Convert.Encode.{MxGenericType, str512}
use mulex_fk.Convert.Decode.{Output, text, astype}
use mulex_fk.Calls.Jobs.{Job, Request, rpc, await, modify, attempt, ◌>>=◌}
use mulex_fk.Calls.Servers.{Server, run, after_request, refused}
use mulex_fk.Utils.Texts.{extract_backend_name, remove_first, starts_with, split_on, ends_with}
use mulex_fk.Global.State.{BackendStatus, Backend, blank, Globals, to_number}
use mulex_fk.Global.Backends.{
  read_direct, set_speed, on_connected, on_name, on_user_status, on_statistics, Callback, connects,
  names, status_changes, measures, call_back, watched_key,
}
use mulex_fk.Global.Told.{
  key_of, asks_for, speed_of, Says, told, Ended, Refuses, RefusesReply, IsTold,
}

split_on-first :
    (cid rest : Text)
    → All (λ c. (c == b'/') ≡ false) cid
    → split_on b'/' (cid ++ (b'/' ∷ rest)) ≡ cid ∷ split_on b'/' rest
unfolding split_on
split_on-first [] rest h = refl
split_on-first (c ∷ cid) rest (apart, h) = rw (apart, split_on-first cid rest h) refl

extract_backend_name-key_of :
    (cid rest : Text)
    → All (λ c. (c == b'/') ≡ false) cid
    → extract_backend_name (key_of cid rest) ≡ cid
unfolding extract_backend_name remove_first starts_with
extract_backend_name-key_of cid rest h = rw (split_on-first cid rest h) refl

module _ (E : Engine) (cid : Text)
    (assign : Option (Backend E.Float) → Backend E.Float → Backend E.Float) (server : Server) where
  open E use {Float}
  open server use {State, reply}

  module _ (c : Callback) (s : Globals Float) (w : State) where
    attempt-IsTold :
        {B : Type 0} (r : Result B) (f : B → Job (Globals Float) (Unit {0}))
        → ((b : B) → r ≡ ok b → IsTold E cid assign server c s w (run server (f b) s w))
        → ((e : Error) → r ≡ throw e → Refuses E cid c e)
        → IsTold E cid assign server c s w (run server (attempt r >>= f) s w)
    unfolding run
    attempt-IsTold (ok b) f h throws = h b refl
    attempt-IsTold (throw e) f h throws = inr (e, inl (throws e refl), refl, refl)

    -- What is left once the value has come.
    abbrev Tells : MxGenericType → Ended E cid assign server → Type 0
    Tells value o =
        ((fields : Option (BackendStatus Float)) × (o.sent ≡ [])
          × Says E cid c value fields
          × (o.result ≡ ok tt)
          × (o.state ≡ told E cid assign server fields s))
        ⊎ ((e : Error) × RefusesReply E cid c value e × (o.result ≡ throw e) × (o.state ≡ s))

    attempt-Tells :
        {B : Type 0} (value : MxGenericType) (r : Result B)
        (fields : B → Option (BackendStatus Float)) (g : B → Globals Float → Globals Float)
        → ((b : B) → r ≡ ok b → Says E cid c value (fields b))
        → ((e : Error) → r ≡ throw e → RefusesReply E cid c value e)
        → ((b : B) → g b s ≡ told E cid assign server (fields b) s)
        → (w' : State) → Tells value (run server (attempt r >>= λ b. modify (g b)) s w')
    unfolding run
    attempt-Tells value (ok b) fields g says throws same w' =
        inl (fields b, refl, says b refl, refl, same b)
    attempt-Tells value (throw e) fields g says throws same w' = inr (e, throws e refl, refl, refl)

    replied-IsTold :
        (f : MxGenericType → Job (Globals Float) (Unit {0})) (key : MxGenericType)
        → str512 E (asks_for E cid c) native ≡ ok key
        → ((r : MxGenericType) (w' : State) → Tells r (run server (f r) s w'))
        → IsTold E cid assign server c s w
            (run server (await "mulex::RdbReadValueDirect" (key ∷ []) generic >>= f) s w)
    unfolding run
    replied-IsTold f key laid next = go (reply w q).0 refl
      where
        q : Request
        q = rpc "mulex::RdbReadValueDirect" (key ∷ []) generic

        go :
            (r : Result MxGenericType)
            → (reply w q).0 ≡ r
            → IsTold E cid assign server c s w (
                after_request {W = State} {S = Globals Float} {A = Unit {0}} q (elim r [
                  | ok x ↦ run server (f x) s (reply w q).1
                  | throw e ↦ refused e s (reply w q).1
                ]))
        go (ok x) e = elim (next x (reply w q).1) [
          | inl (fields, sent, says, fine, state) ↦
              inl (key, x, fields, laid, ap (λ qs. q ∷ qs) sent, e, says, fine, state)
          | inr (err, refused, thrown, state) ↦
              inr (err, inr (inr (key, laid, inr (x, e, refused))), thrown, state)
        ]
        go (throw e) h = inr (e, inr (inr (key, laid, inl h)), refl, refl)

    read_direct-IsTold :
        (f : MxGenericType → Job (Globals Float) (Unit {0}))
        → ((r : MxGenericType) (w' : State) → Tells r (run server (f r) s w'))
        → IsTold E cid assign server c s w (run server (read_direct E (asks_for E cid c) >>= f) s w)
    unfolding run
    read_direct-IsTold f next = go (str512 E (asks_for E cid c) native) refl
      where
        go :
            (r : Result MxGenericType)
            → str512 E (asks_for E cid c) native ≡ r
            → IsTold E cid assign server c s w (
                run server
                  ((attempt r >>= λ entry. await "mulex::RdbReadValueDirect" (entry ∷ []) generic)
                    >>= f)
                  s
                  w)
        go (ok key) laid = replied-IsTold f key laid next
        go (throw e) laid = inr (e, inr (inl laid), refl, refl)

  set_speed-told :
      (key : Text) (speed : Output Float) (s : Globals Float)
      → extract_backend_name key ≡ cid
      → set_speed E assign key speed s ≡ told E cid assign server (speed_of E cid key speed) s
  set_speed-told key speed s named = elim (Bool-cases (ends_with (units "read") key)) [
    | inl read ↦ rw (read, named) refl
    | inr not_read ↦ elim (Bool-cases (ends_with (units "write") key)) [
      | inl write ↦ rw (not_read, write, named) refl
      | inr not_write ↦ rw (not_read, not_write) refl
    ]
  ]

module _ (E : Engine) (assign : Option (Backend E.Float) → Backend E.Float → Backend E.Float)
    (server : Server) where
  open E use {Float}
  open server use {State}

  call_back-named :
      (c : Callback) (s : Globals Float) (w : State)
      → IsTold E
          (extract_backend_name (watched_key c))
          assign
          server
          c
          s
          w
          (run server (call_back E assign c) s w)
  unfolding call_back on_connected on_name on_user_status on_statistics
  call_back-named (connects key value) s w =
      let cid = extract_backend_name key in
      attempt-IsTold E cid assign server (connects key value) s w (astype E value bool) _
        (λ flag said. read_direct-IsTold E cid assign server (connects key value) s w _ (λ r w'.
          attempt-Tells E cid assign server (connects key value) s w r (astype E r int64)
            (λ time. some (record blank {
              connected = some flag;
              user_status = some (text (units "None"));
              uptime = some (to_number E time);
            }))
            _ (λ time read. (flag, time, said, read, refl)) (λ e h. h) (λ time. refl) w'))
        (λ e h. h)
  call_back-named (names key value) s w =
      let cid = extract_backend_name key in
      attempt-IsTold E cid assign server (names key value) s w (astype E value string) _
        (λ name said. read_direct-IsTold E cid assign server (names key value) s w _ (λ r w'.
          attempt-Tells E cid assign server (names key value) s w r (astype E r string)
            (λ host. some (record blank { name = some name; host = some host })) _
            (λ host read. (name, host, said, read, refl)) (λ e h. h) (λ host. refl) w'))
        (λ e h. h)
  call_back-named (status_changes key value) s w =
      let cid = extract_backend_name key in
      attempt-IsTold E cid assign server (status_changes key value) s w (astype E value string) _
        (λ status said.
          read_direct-IsTold E cid assign server (status_changes key value) s w _ (λ r w'.
            attempt-Tells E cid assign server (status_changes key value) s w r (astype E r string)
              (λ color. some (record blank { user_status = some status; user_color = some color }))
              _ (λ color read. (status, color, said, read, refl)) (λ e h. h) (λ color. refl) w'))
        (λ e h. h)
  call_back-named (measures key) s w =
      let cid = extract_backend_name key in
      read_direct-IsTold E cid assign server (measures key) s w _ (λ r w'.
        attempt-Tells E cid assign server (measures key) s w r (astype E r uint32)
          (speed_of E cid key) _ (λ speed read. (speed, read, refl)) (λ e h. h)
          (λ speed. set_speed-told E cid assign server key speed s refl) w')

  -- A callback of a key of a backend `cid`, a name with no '/' in it, against any server and for any way
  -- of solid-js to assign. If nothing throws, it asks for one key of the same backend, the one that goes
  -- with it, and then tells the store, for this backend and no other, the fields that its value and the
  -- reply say: connected with the time and 'None', name with host, text with colour, or the speed that the
  -- key's ending is about, and nothing for another ending. If the callback's value, the
  -- key, the call or the reply throws, this is its result, and nothing changes.
  pub call_back-IsTold :
      (c : Callback) (cid rest : Text) (s : Globals Float) (w : State)
      → All (λ ch. (ch == b'/') ≡ false) cid
      → watched_key c ≡ key_of cid rest
      → IsTold E cid assign server c s w (run server (call_back E assign c) s w)
  call_back-IsTold c cid rest s w h e =
      let named : extract_backend_name (watched_key c) ≡ cid =
        ap extract_backend_name e ∙ extract_backend_name-key_of cid rest h in
      rw named at (call_back-named c s w)
