-- ===== src/Book/Posted.antt =====
-- LogBook.tsx: what post sends, and what it leaves of the draft.
use mulex_fk.Prelude.{
  arith, ltb, length, ◌&&◌, ◌≡◌, refl, ap, ◌∙◌, Bool, true, false, none, some, List, [], ◌∷◌,
}
use mulex_fk.Prelude.Results.{Result, ok, throw}
use mulex_fk.Convert.Names.{native, generic, bool}
use mulex_fk.Convert.Engine.{Engine, Text}
use mulex_fk.Convert.Encode.{MxGenericType, make_data, str512}
use mulex_fk.Convert.Decode.{Output, boolean, booleans, astype}
use mulex_fk.Calls.Jobs.{Job, Request, rpc, await, attempt, ◌>>=◌}
use mulex_fk.Calls.Servers.{Server, Outcome, run, after_request, refused}
use mulex_fk.Book.Drafts.{FileHandler, Draft}
use mulex_fk.Book.Reading.{is_true}
use mulex_fk.Book.Publishing.{is_full, post, meta_raw, after_post, post_full}

-- The arguments of the request, or the exception of the first that cannot be laid out.
abbrev pub laid_out : {A : Type 0} → (title body meta : Result A) → Result (List A)
laid_out (ok title) (ok body) (ok meta) = ok (title ∷ body ∷ meta ∷ [])
laid_out (throw e) body meta = throw e
laid_out (ok title) (throw e) meta = throw e
laid_out (ok title) (ok body) (throw e) = throw e

abbrev pub post_request : List MxGenericType → Request
post_request args = rpc "mulex::LbkPostCreate" args native

module _ (E : Engine) where
  open E use {Float, encode}

  -- Whether an output of astype is truthy, for those of a bool.
  abbrev pub says_yes : Output Float → Bool
  says_yes (boolean b) = b
  says_yes (booleans bs) = true
  says_yes _ = false

  -- The reply: yes or no, or an exception.
  abbrev pub accepted : Result MxGenericType → Result Bool
  accepted (ok res) = elim (astype E res bool) [ ok flag ↦ ok (says_yes flag) | throw e ↦ throw e ]
  accepted (throw e) = throw e

  module _ (stringify : List FileHandler → Text) where
    -- The title, the body, and the attachments that the stored draft has.
    abbrev pub arguments_of : Draft → Result (List MxGenericType)
    arguments_of d = laid_out (str512 E d.title native) (make_data (encode d.body) generic) (
        make_data (elim d.saved_files [ none ↦ [] | some files ↦ encode (stringify files) ])
          generic)

module _ (server : Server) (d : Draft) where
  open server use {State, reply}

  -- The list is shown and the stored draft is gone only after a yes.
  abbrev pub answered : Request → Result Bool → State → Outcome State Draft Bool
  answered q (ok true) w = record {
    result = ok true;
    state = record d { saved_title = none; saved_body = none; saved_files = none };
    world = w;
    sent = q ∷ [];
  }
  answered q (ok false) w = record { result = ok false; state = d; world = w; sent = q ∷ [] }
  answered q (throw e) w = record { result = throw e; state = d; world = w; sent = q ∷ [] }

  -- `written` is whether there are a title and a body.
  abbrev pub posted :
      (E : Engine) (written : Bool) → Result (List MxGenericType) → State → Outcome State Draft Bool
  posted E false args w = record { result = ok false; state = d; world = w; sent = [] }
  posted E true (throw e) w = record { result = throw e; state = d; world = w; sent = [] }
  posted E true (ok args) w =
      answered (post_request args) (accepted E (reply w (post_request args)).0)
        (reply w (post_request args)).1

module _ (E : Engine) (stringify : List FileHandler → Text) (server : Server) (d : Draft) where
  open server use {State, reply}

  -- What post does with the reply.
  abbrev take_reply : MxGenericType → Job Draft Bool
  take_reply res = attempt (astype E res bool) >>= λ flag. after_post E stringify (is_true E flag)

  after_post-answered :
      (q : Request) (yes : Bool) (w : State)
      → after_request q (run server (after_post E stringify yes) d w)
        ≡ answered server d q (ok yes) w
  unfolding run
  after_post-answered q true w = refl
  after_post-answered q false w = refl

  is_true-says_yes : (flag : Output E.Float) → is_true E flag ≡ says_yes E flag
  is_true-says_yes flag = elim flag [ boolean b ↦ refl | booleans bs ↦ refl | _ ↦ refl ]

  flag-answered :
      (q : Request) (r : Result (Output E.Float)) (w : State)
      → after_request q
          (run server (attempt r >>= λ flag. after_post E stringify (is_true E flag)) d w)
        ≡ answered server d q (elim r [ ok flag ↦ ok (says_yes E flag) | throw e ↦ throw e ]) w
  unfolding run
  flag-answered q (ok flag) w =
      after_post-answered q (is_true E flag) w
      ∙ ap (λ b. answered server d q (ok b) w) (is_true-says_yes flag)
  flag-answered q (throw e) w = refl

  reply-answered :
      (q : Request) (r : Result MxGenericType) (w : State)
      → after_request q
          (elim r [ ok res ↦ run server (take_reply res) d w | throw e ↦ refused e d w ])
        ≡ answered server d q (accepted E r) w
  reply-answered q (ok res) w = flag-answered q (astype E res bool) w
  reply-answered q (throw e) w = refl

  send_post : (args : List MxGenericType) → Job Draft Bool
  send_post args = await "mulex::LbkPostCreate" args native >>= take_reply

  laid-posted :
      (title body meta : Result MxGenericType) (w : State)
      → run server
          (attempt title >>= λ t. attempt body >>= λ b. attempt meta >>= λ m.
            await "mulex::LbkPostCreate" (t ∷ b ∷ m ∷ []) native >>= take_reply)
          d
          w
        ≡ posted server d E true (laid_out title body meta) w
  unfolding run
  laid-posted (ok t) (ok b) (ok m) w =
      let q : Request = post_request (t ∷ b ∷ m ∷ []) in
      reply-answered q (reply w q).0 (reply w q).1
  laid-posted (throw e) body meta w = refl
  laid-posted (ok t) (throw e) meta w = refl
  laid-posted (ok t) (ok b) (throw e) w = refl

  post_full-posted :
      (written : Bool) (w : State)
      → run server (post_full E stringify d written) d w
        ≡ posted server d E written (arguments_of E stringify d) w
  unfolding run
  post_full-posted false w = refl
  post_full-posted true w =
      laid-posted (str512 E d.title native) (make_data (E.encode d.body) generic)
        (make_data (meta_raw E stringify d.saved_files) generic) w

is_full-length : (t : Text) → is_full t ≡ ltb 0 (length t)
is_full-length [] = refl
is_full-length (c ∷ t) = ground arith

-- Posting against any server. Without a title or without a body nothing is sent, and nothing changes; nor
-- is anything sent if an argument cannot be laid out, and the exception is the result. Else the one request
-- is for the post, with the title, the body and the attachments of the stored draft, in this order. If the
-- server says yes, the list of posts is shown, and the three items of the stored draft are gone, while
-- the rest of the draft stays. If it says no, or if the call or its reply throws, the list is not shown,
-- and the draft is as it was.
pub post-posted :
    (E : Engine) (stringify : List FileHandler → Text) (server : Server) (d : Draft)
    (w : server.State)
    → run server (post E stringify) d w
      ≡ posted server d E
          (ltb 0 (length d.body) && ltb 0 (length d.title))
          (arguments_of E stringify d)
          w
unfolding run post
post-posted E stringify server d w =
    let written : (is_full d.body && is_full d.title)
        ≡ (ltb 0 (length d.body) && ltb 0 (length d.title)) =
      rw (is_full-length d.body, is_full-length d.title) refl in
    post_full-posted E stringify server d (is_full d.body && is_full d.title) w
    ∙ ap (λ b. posted server d E b (arguments_of E stringify d) w) written
