-- ===== src/Logs/Order.antt =====
-- LogTable.tsx: the messages of backends whose names are known.
use mulex_fk.Prelude.{
  ℕ, ◌≡◌, refl, sym, ap, ◌∙◌, List, [], ◌∷◌, ◌++◌, map, append-nil, append_assoc, All, Option, none,
  some, arith, Bool-cases, inl, inr, ◌==◌, if◌then◌else◌, ==_iff,
}
use mulex_fk.Prelude.Ends.{slice_last-append, slice_last-one}
use mulex_fk.Prelude.Int.{ℤ}
use mulex_fk.Prelude.Keys.{number_key}
use mulex_fk.Convert.Engine.{Text}
use mulex_fk.Stores.Maps
use mulex_fk.Stores.MapLaws.{get-put}
use mulex_fk.Logs.Provider.{
  MxLog, Message, all, single, LogState, receives, keep_last, append_log, next_blog, log_of,
  add_named, add_message_generic, add_message_to_both, act, act_all,
}

-- The entries of a backend; no list is none.
abbrev pub list_of : Option (List MxLog) → List MxLog
list_of none = []
list_of (some blog) = blog

module _ (time date_time : ℤ → Text) (max_logs : ℕ) (named : ℕ → Text) where
  keep_last-append :
      (xs ys : List MxLog)
      → keep_last time date_time max_logs (keep_last time date_time max_logs xs ++ ys)
        ≡ keep_last time date_time max_logs (xs ++ ys)
  unfolding keep_last
  keep_last-append xs ys = elim (Bool-cases (max_logs == 0)) [
    | inl off ↦ rw off refl
    | inr on ↦ rw on (slice_last-append max_logs xs ys)
  ]

  -- The entries that the messages make, of all and of one client.
  abbrev pub entries : List Message → List MxLog
  entries ms = map (λ m. log_of time date_time max_logs all m (named m.cid)) ms

  abbrev pub entries_of : ℕ → List Message → List MxLog
  entries_of cid [] = []
  entries_of cid (m ∷ ms) =
      if m.cid == cid
      then log_of time date_time max_logs single m (named m.cid) ∷ entries_of cid ms
      else entries_of cid ms

  -- After a message whose backend's name is known.
  abbrev after_both : Message → LogState → LogState
  after_both m s = record s {
    logs =
        keep_last time date_time max_logs
          (s.logs ++ (log_of time date_time max_logs all m (named m.cid) ∷ []));
    blogs = Maps.put s.blogs m.cid (
        next_blog time date_time max_logs (Maps.get s.blogs m.cid)
          (log_of time date_time max_logs single m (named m.cid)));
  }

  receives-known :
      (m : Message) (s : LogState)
      → Maps.get s.client_msg_list m.cid ≡ some (named m.cid)
      → act time date_time max_logs (receives m) s ≡ after_both m s
  unfolding act add_message_to_both add_message_generic append_log
  receives-known m s known =
      let log = log_of time date_time max_logs all m (named m.cid) in
      let listed : LogState = record s {
        logs = keep_last time date_time max_logs (s.logs ++ (log ∷ []));
      } in
      ap
        (λ name.
          add_message_generic time date_time max_logs single m
            (add_named time date_time max_logs all m name s))
        known
      ∙ ap (λ name. add_named time date_time max_logs single m name listed) known

  keep_last-one : (log : MxLog) → keep_last time date_time max_logs (log ∷ []) ≡ log ∷ []
  unfolding keep_last
  keep_last-one log = elim (Bool-cases (max_logs == 0)) [
    | inl off ↦ rw off refl
    | inr on ↦ rw on (slice_last-one max_logs log (ground arith))
  ]

  next_blog-kept :
      (found : Option (List MxLog)) (ys : List MxLog) (log : MxLog)
      → list_of found ≡ keep_last time date_time max_logs ys
      → next_blog time date_time max_logs found log
        ≡ keep_last time date_time max_logs (ys ++ (log ∷ []))
  next_blog-kept none ys log e =
      sym (keep_last-one log)
      ∙ ap (λ t. keep_last time date_time max_logs (t ++ (log ∷ []))) e
      ∙ keep_last-append ys (log ∷ [])
  next_blog-kept (some blog) ys log e =
      ap (λ t. keep_last time date_time max_logs (t ++ (log ∷ []))) e
      ∙ keep_last-append ys (log ∷ [])

  blog-after :
      (m : Message) (s : LogState) (cid : ℕ) (ys : List MxLog)
      → list_of (Maps.get s.blogs cid) ≡ keep_last time date_time max_logs ys
      → list_of (Maps.get (after_both m s).blogs cid)
        ≡ keep_last time date_time max_logs (ys ++ entries_of cid (m ∷ []))
  blog-after m s cid ys found = elim (Bool-cases (m.cid == cid)) [
    | inl here ↦
        let same : m.cid ≡ cid = (==_iff m.cid cid).0 here in
        let there : list_of (Maps.get s.blogs m.cid) ≡ keep_last time date_time max_logs ys =
          rw same found in
        ap list_of (get-put s.blogs m.cid _ cid)
        ∙ rw here (
            next_blog-kept (Maps.get s.blogs m.cid) ys
              (log_of time date_time max_logs single m (named m.cid)) there)
    | inr other ↦
        ap list_of (get-put s.blogs m.cid _ cid)
        ∙ rw other (found ∙ ap (keep_last time date_time max_logs) (sym (append-nil ys)))
  ]

  entries_of-cons :
      (cid : ℕ) (m : Message) (ms : List Message) (ys : List MxLog)
      → (ys ++ entries_of cid (m ∷ [])) ++ entries_of cid ms ≡ ys ++ entries_of cid (m ∷ ms)
  entries_of-cons cid m ms ys = elim (Bool-cases (m.cid == cid)) [
    | inl here ↦ rw here (
        append_assoc ys (log_of time date_time max_logs single m (named m.cid) ∷ [])
          (entries_of cid ms))
    | inr other ↦ rw other (ap (λ t. t ++ entries_of cid ms) (append-nil ys))
  ]

  -- Messages whose backends' names are known are listed in the order that they come in, if the list of
  -- all and the list of a backend are the last of some entries: then they are the last of those and of
  -- the entries of the messages, of all of them and of the backend's. The backend may have no list
  -- before, which counts as an empty one: then its first message starts it. No message is put among
  -- those that wait for a name.
  pub act_all-entries :
      (ms : List Message) (s : LogState) (cid : ℕ) (xs ys : List MxLog)
      → All (λ m. Maps.get s.client_msg_list m.cid ≡ some (named m.cid)) ms
      → s.logs ≡ keep_last time date_time max_logs xs
      → list_of (Maps.get s.blogs cid) ≡ keep_last time date_time max_logs ys
      → ((act_all time date_time max_logs (map receives ms) s).logs
          ≡ keep_last time date_time max_logs (xs ++ entries ms))
        × (list_of (Maps.get (act_all time date_time max_logs (map receives ms) s).blogs cid)
            ≡ keep_last time date_time max_logs (ys ++ entries_of cid ms))
        × ((act_all time date_time max_logs (map receives ms) s).awaiting ≡ s.awaiting)
  act_all-entries [] s cid xs ys known logged found = (
    logged ∙ ap (keep_last time date_time max_logs) (sym (append-nil xs)),
    found ∙ ap (keep_last time date_time max_logs) (sym (append-nil ys)),
    refl,
  )
  act_all-entries (m ∷ ms) s cid xs ys (known, rest) logged found =
      let one = log_of time date_time max_logs all m (named m.cid) in
      let (a, b, c) =
        act_all-entries ms (after_both m s) cid (xs ++ (one ∷ [])) (ys ++ entries_of cid (m ∷ []))
          rest
          (ap (λ t. keep_last time date_time max_logs (t ++ (one ∷ []))) logged
            ∙ keep_last-append xs (one ∷ []))
          (blog-after m s cid ys found) in
      let moved = receives-known m s known in
      let after : LogState → LogState = act_all time date_time max_logs (map receives ms) in
      (
        ap (λ t. (after t).logs) moved
            ∙ a
            ∙ ap (keep_last time date_time max_logs) (append_assoc xs (one ∷ []) (entries ms)),
        ap (λ t. list_of (Maps.get (after t).blogs cid)) moved
            ∙ b
            ∙ ap (keep_last time date_time max_logs) (entries_of-cons cid m ms ys),
        ap (λ t. (after t).awaiting) moved ∙ c,
      )
