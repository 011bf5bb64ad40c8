-- ===== src/Book/Deleting.antt =====
-- LogBook.tsx: what deletePosts leaves, against any server.
use mulex_fk.Prelude.{◌^◌, ◌≡◌, refl, ap, ◌∙◌, Bool, true, false, List, [], ◌∷◌, map}
use mulex_fk.Prelude.Int.{ℤ, to_unsigned}
use mulex_fk.Prelude.Results.{Result, ok, throw}
use mulex_fk.Convert.Names.{native, bool}
use mulex_fk.Convert.Engine.{Engine, int}
use mulex_fk.Convert.Bytes.{whole, le_bytes}
use mulex_fk.Convert.Encode
use mulex_fk.Convert.Encode.{MxGenericType, from_data}
use mulex_fk.Convert.Decode.{Output, astype}
use mulex_fk.Convert.Shorthands
use mulex_fk.Calls.Jobs.{Request, rpc, attempt, caught, ◌>>=◌}
use mulex_fk.Calls.Servers.{Server, Outcome, after_request, refused, run, run-bind, run-caught}
use mulex_fk.Book.Posts.{delete_post}
use mulex_fk.Book.Context.{Book, select_effect}
use mulex_fk.Book.Reading.{
  is_true, after_delete, try_delete, Deletions, count_deletion, delete_each,
}

-- The int32 of an id.
abbrev pub wire_id : ℤ → MxGenericType
wire_id id = from_data (whole (le_bytes 4 (to_unsigned (256 ^ 4) id))) native

abbrev pub delete_request : ℤ → Request
delete_request id = rpc "mulex::LbkPostDelete" (wire_id id ∷ []) native

int32-wire_id : (E : Engine) (id : ℤ) → Shorthands.int32 E (int id) native ≡ ok (wire_id id)
unfolding Shorthands.int32 Encode.from_value Encode.value_bytes Encode.wrap
int32-wire_id E id = refl

module _ (E : Engine) where
  -- What a reply says: yes, no, or an exception.
  abbrev pub verdict : Result MxGenericType → Result Bool
  verdict (throw e) = throw e
  verdict (ok res) = elim (astype E res bool) [ ok flag ↦ ok (is_true E flag) | throw e ↦ throw e ]

module _ (E : Engine) (server : Server) where
  open server use {State, reply}

  -- What the server says to each deletion, one after the other.
  unfoldable pub verdicts : List ℤ → State → List (ℤ × Result Bool)
  verdicts [] w = []
  verdicts (id ∷ ids) w =
      (id, verdict E (reply w (delete_request id)).0) ∷ verdicts ids (reply w (delete_request id)).1

  abbrev pub world_after : List ℤ → State → State
  world_after [] w = w
  world_after (id ∷ ids) w = world_after ids (reply w (delete_request id)).1

  abbrev pub apply_verdict : ℤ → Result Bool → Book → Book
  apply_verdict id (ok true) b =
      select_effect (record b { page_posts = delete_post id b.page_posts })
  apply_verdict id (ok false) b = b
  apply_verdict id (throw e) b = b

  -- The `try` block, run: its value, and what it leaves.
  abbrev tried : ℤ → Book → State → Result Bool → Outcome State Book Bool
  tried id b w v = record {
    result = v;
    state = apply_verdict id v b;
    world = w;
    sent = delete_request id ∷ [];
  }

  module _ (id : ℤ) (b : Book) (w : State) where
    run-after_delete :
        (flag : Bool)
        → after_request (delete_request id) (run server (after_delete E id flag) b w)
          ≡ tried id b w (ok flag)
    unfolding run
    run-after_delete true = refl
    run-after_delete false = refl

    run-after_flag :
        (r : Result (Output E.Float))
        → after_request
            (delete_request id)
            (run server (attempt r >>= λ flag. after_delete E id (is_true E flag)) b w)
          ≡ tried id b w (elim r [ ok flag ↦ ok (is_true E flag) | throw e ↦ throw e ])
    unfolding run
    run-after_flag (ok flag) = run-after_delete (is_true E flag)
    run-after_flag (throw e) = refl

    run-after_reply :
        (r : Result MxGenericType)
        → after_request (delete_request id) (elim r [
          | ok res ↦
              run server
                (attempt (astype E res bool) >>= λ flag. after_delete E id (is_true E flag))
                b
                w
          | throw e ↦ refused e b w
        ])
          ≡ tried id b w (verdict E r)
    run-after_reply (ok res) = run-after_flag (astype E res bool)
    run-after_reply (throw e) = refl

  run-try_delete :
      (id : ℤ) (b : Book) (w : State)
      → run server (try_delete E id) b w
        ≡ tried id b (reply w (delete_request id)).1 (verdict E (reply w (delete_request id)).0)
  unfolding run try_delete
  run-try_delete id b w =
      rw (int32-wire_id E id)
        (run-after_reply id b (reply w (delete_request id)).1 (reply w (delete_request id)).0)

  abbrev pub apply_all : List (ℤ × Result Bool) → Book → Book
  apply_all [] b = b
  apply_all ((id, v) ∷ vs) b = apply_all vs (apply_verdict id v b)

  abbrev pub count_all : List (ℤ × Result Bool) → Deletions → Deletions
  count_all [] d = d
  count_all ((id, v) ∷ vs) d = count_all vs (count_deletion id v d)

  pub run-delete_each :
      (ids : List ℤ) (d : Deletions) (b : Book) (w : State)
      → run server (delete_each E ids d) b w ≡ record {
        result = ok (count_all (verdicts ids w) d);
        state = apply_all (verdicts ids w) b;
        world = world_after ids w;
        sent = map delete_request ids;
      }
  unfolding run delete_each verdicts
  run-delete_each [] d b w = refl
  run-delete_each (id ∷ ids) d b w =
      let w' = (reply w (delete_request id)).1 in
      let v = verdict E (reply w (delete_request id)).0 in
      run-bind server (caught (try_delete E id)) (λ r. delete_each E ids (count_deletion id r d)) b
        w
      ∙ rw (run-caught server (try_delete E id) b w, run-try_delete id b w)
          (ap (after_request (delete_request id))
            (run-delete_each ids (count_deletion id v d) (apply_verdict id v b) w'))
