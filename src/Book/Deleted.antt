-- ===== src/Book/Deleted.antt =====
-- LogBook.tsx: which posts deletePosts deletes, and what it reports.
use mulex_fk.Prelude.{
  ℕ, ◌+◌, ◌≡◌, refl, sym, ap, ◌∙◌, Bool, true, false, ◌||◌, List, [], ◌∷◌, ◌++◌, map, length,
  append-nil, append_assoc, arith, if◌then◌else◌, Bool-cases, inl, inr,
}
use mulex_fk.Prelude.Int.{ℤ}
use mulex_fk.Prelude.Keys.{int_key, same_int, same_int_iff}
use mulex_fk.Prelude.Results.{Result, ok, throw}
use mulex_fk.Convert.Engine.{Engine}
use mulex_fk.Calls.Servers.{Server, run, run-bind}
use mulex_fk.Calls.Jobs.{modify}
use mulex_fk.Stores.Sets
use mulex_fk.Book.Posts.{LogBookPost, delete_post}
use mulex_fk.Book.Context.{Book, failed, deleted, is_some_id}
use mulex_fk.Book.Reading.{
  Deletions, no_deletions, count_deletion, report_deletions, delete_each, delete_posts,
}
use mulex_fk.Book.Deleting.{
  delete_request, verdicts, apply_verdict, apply_all, count_all, run-delete_each,
}

-- The posts that the server has deleted, those that it has not, and whether a call was rejected.
unfoldable pub confirmed : List (ℤ × Result Bool) → List ℤ
confirmed [] = []
confirmed ((id, ok true) ∷ vs) = id ∷ confirmed vs
confirmed ((id, ok false) ∷ vs) = confirmed vs
confirmed ((id, throw e) ∷ vs) = confirmed vs

unfoldable pub unconfirmed : List (ℤ × Result Bool) → List ℤ
unconfirmed [] = []
unconfirmed ((id, ok true) ∷ vs) = unconfirmed vs
unconfirmed ((id, ok false) ∷ vs) = id ∷ unconfirmed vs
unconfirmed ((id, throw e) ∷ vs) = id ∷ unconfirmed vs

unfoldable pub is_rejected : List (ℤ × Result Bool) → Bool
is_rejected [] = false
is_rejected ((id, ok b) ∷ vs) = is_rejected vs
is_rejected ((id, throw e) ∷ vs) = true

-- The posts whose ids are none of these.
unfoldable pub others : List ℤ → List LogBookPost → List LogBookPost
others ids [] = []
others ids (p ∷ posts) = if Sets.has ids p.id then others ids posts else p ∷ others ids posts

others-nil : (posts : List LogBookPost) → others [] posts ≡ posts
unfolding others Sets.has
others-nil [] = refl
others-nil (p ∷ posts) = ap (λ t. p ∷ t) (others-nil posts)

same_int_sym : (a b : ℤ) → same_int a b ≡ same_int b a
same_int_sym a b = ground (arith, same_int_iff a b, same_int_iff b a)

others-delete_post :
    (id : ℤ) (ids : List ℤ) (posts : List LogBookPost)
    → others ids (delete_post id posts) ≡ others (id ∷ ids) posts
unfolding others delete_post Sets.has
others-delete_post id ids [] = refl
others-delete_post id ids (p ∷ posts) = elim (Bool-cases (same_int p.id id)) [
  | inl same ↦ rw (same, sym (same_int_sym p.id id) ∙ same) (others-delete_post id ids posts)
  | inr other ↦
      rw (other, sym (same_int_sym p.id id) ∙ other)
        (ap (λ t. if Sets.has ids p.id then t else p ∷ t) (others-delete_post id ids posts))
]

deletions_eq :
    {f g : List ℤ} {p q : Bool} {m n : ℕ}
    → f ≡ g
    → p ≡ q
    → m ≡ n
    → ◌≡◌ {A = Deletions}
        (record { fdeletions = f; no_permission = p; num_del = m })
        (record { fdeletions = g; no_permission = q; num_del = n })
deletions_eq f p m = rw (f, p, m) refl

-- What the loop counts.
count_all-parts :
    (E : Engine) (server : Server) (vs : List (ℤ × Result Bool)) (d : Deletions)
    → count_all E server vs d ≡ record {
      fdeletions = d.fdeletions ++ unconfirmed vs;
      no_permission = d.no_permission || is_rejected vs;
      num_del = d.num_del + length (confirmed vs);
    }
unfolding unconfirmed is_rejected confirmed
count_all-parts E server [] d =
    deletions_eq (sym (append-nil d.fdeletions)) (ground arith) (omega arith)
count_all-parts E server ((id, ok true) ∷ vs) d =
    count_all-parts E server vs (count_deletion id (ok true) d)
    ∙ deletions_eq refl refl (omega arith)
count_all-parts E server ((id, ok false) ∷ vs) d =
    count_all-parts E server vs (count_deletion id (ok false) d)
    ∙ deletions_eq (append_assoc d.fdeletions (id ∷ []) (unconfirmed vs)) refl refl
count_all-parts E server ((id, throw e) ∷ vs) d =
    count_all-parts E server vs (count_deletion id (throw e) d)
    ∙ deletions_eq (append_assoc d.fdeletions (id ∷ []) (unconfirmed vs)) (ground arith) refl

abbrev counts : List (ℤ × Result Bool) → Deletions
counts vs = record {
  fdeletions = unconfirmed vs;
  no_permission = is_rejected vs;
  num_del = length (confirmed vs);
}

count_all-counts :
    (E : Engine) (server : Server) (vs : List (ℤ × Result Bool))
    → count_all E server vs no_deletions ≡ counts vs
count_all-counts E server vs =
    count_all-parts E server vs no_deletions ∙ deletions_eq refl refl (omega arith)

-- What is left of the state when the loop has ended, once it is reported.
report_deletions-apply_all :
    (E : Engine) (server : Server) (vs : List (ℤ × Result Bool)) (d : Deletions) (b : Book)
    → report_deletions d (apply_all E server vs b)
      ≡ report_deletions d (record b { page_posts = others (confirmed vs) b.page_posts })
unfolding confirmed
report_deletions-apply_all E server [] d b = rw (others-nil b.page_posts) refl
report_deletions-apply_all E server ((id, ok true) ∷ vs) d b =
    report_deletions-apply_all E server vs d (apply_verdict E server id (ok true) b)
    ∙ rw (others-delete_post id (confirmed vs) b.page_posts) refl
report_deletions-apply_all E server ((id, ok false) ∷ vs) d b =
    report_deletions-apply_all E server vs d b
report_deletions-apply_all E server ((id, throw e) ∷ vs) d b =
    report_deletions-apply_all E server vs d b

-- deletePosts, against any server, asks for the deletion of each selected post, in order, whatever the
-- replies are, and gives no exception. The posts of the page are then those that the server did not
-- confirm as deleted, the selection is what it did not confirm, and the toast is the number of the
-- deleted posts if there is no other, and else a failure, with the missing permission exactly if a call
-- or its reply made an exception. Nothing else of the state changes.
pub delete_posts-confirmed :
    (E : Engine) (server : Server) (b : Book) (w : server.State)
    → let vs = verdicts E server b.selected_ids w in
      let o = run server (delete_posts E) b w in
      (o.result ≡ ok tt)
      × (o.sent ≡ map delete_request b.selected_ids)
      × (o.state ≡ record b {
        page_posts = others (confirmed vs) b.page_posts;
        selected_ids = unconfirmed vs;
        selection = is_some_id (unconfirmed vs);
        toasts =
            b.toasts
            ++ ((if is_some_id (unconfirmed vs)
                  then failed (is_rejected vs)
                  else deleted (length (confirmed vs)))
                ∷ []);
      })
unfolding run delete_posts
delete_posts-confirmed E server b w =
    let vs = verdicts E server b.selected_ids w in
    rw
      (
        run-bind server (delete_each E b.selected_ids no_deletions)
            (λ d. modify (report_deletions d)) b w,
        run-delete_each E server b.selected_ids no_deletions b w,
        count_all-counts E server vs,
      )
      (
        refl,
        append-nil (map delete_request b.selected_ids),
        report_deletions-apply_all E server vs (counts vs) b,
      )
