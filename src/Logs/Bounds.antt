-- ===== src/Logs/Bounds.antt =====
-- LogTable.tsx: the lists stay within their bound, whatever order the replies come in.
use mulex_fk.Prelude.{
  false, none, ℕ, suc, ◌≤◌, ◌<◌, ◌≡◌, refl, sym, ◌∙◌, List, [], ◌∷◌, ◌++◌, Option, some, length,
  arith, reverse, get_elem?, take, drop, ◌==◌, Bool-cases, inl, inr,
}
use mulex_fk.Prelude.Ends.{length-slice_last}
use mulex_fk.Prelude.Int.{ℤ}
use mulex_fk.Prelude.Keys.{number_key}
use mulex_fk.Convert.Engine.{Text}
use mulex_fk.Stores.Maps
use mulex_fk.Stores.MapLaws.{get-put}
use mulex_fk.Logs.Provider.{
  MxLog, Message, Target, all, single, LogState, LogEvent, receives, fetches, names, keep_last,
  append_log, next_blog, add_named, add_message_generic, add_message_to_both, add_messages,
  fetch_logs, name_found, lookup_reply, act, act_all, start,
}

-- No list has more than a number of entries.
pub record IsBounded (max_logs : ℕ) (s : LogState) : Type 0 where
  pub in_all : length s.logs ≤ max_logs
  pub in_each :
      (cid : ℕ) (blog : List MxLog) → Maps.get s.blogs cid ≡ some blog → length blog ≤ max_logs

get-start : (cid : ℕ) → Maps.get start.blogs cid ≡ none
unfolding Maps.get
get-start cid = refl

module _ (time date_time : ℤ → Text) (max_logs : ℕ) (limited : 0 < max_logs) where
  length-keep_last : (xs : List MxLog) → length (keep_last time date_time max_logs xs) ≤ max_logs
  unfolding keep_last
  length-keep_last xs =
      let off : (max_logs == 0) ≡ false = ground arith in
      rw off (omega (arith, length-slice_last max_logs xs))

  next_blog-bounded :
      (found : Option (List MxLog)) (log : MxLog)
      → length (next_blog time date_time max_logs found log) ≤ max_logs
  next_blog-bounded none log = omega arith
  next_blog-bounded (some blog) log = length-keep_last (blog ++ (log ∷ []))

  append_log-IsBounded :
      (target : Target) (cid : ℕ) (log : MxLog) (s : LogState)
      → IsBounded max_logs s
      → IsBounded max_logs (append_log time date_time max_logs target cid log s)
  unfolding append_log
  append_log-IsBounded all cid log s b = record {
    in_all = length-keep_last (s.logs ++ (log ∷ []));
    in_each = b.in_each;
  }
  append_log-IsBounded single cid log s b = record {
    in_all = b.in_all;
    in_each = λ c blog e.
        let bound = next_blog-bounded (Maps.get s.blogs cid) log in
        let put_there =
          get-put s.blogs cid (next_blog time date_time max_logs (Maps.get s.blogs cid) log) c in
        elim (Bool-cases (cid == c)) [
          | inl here ↦
              let same : some (next_blog time date_time max_logs (Maps.get s.blogs cid) log)
                  ≡ some blog =
                rw here at (sym put_there ∙ e) in
              let shape : next_blog time date_time max_logs (Maps.get s.blogs cid) log ≡ blog =
                cc in
              rw (← shape) bound
          | inr there ↦
              let kept : Maps.get s.blogs c ≡ some blog = rw there at (sym put_there ∙ e) in
              b.in_each c blog kept
        ];
  }

  add_message_generic-IsBounded :
      (target : Target) (m : Message) (s : LogState)
      → IsBounded max_logs s
      → IsBounded max_logs (add_message_generic time date_time max_logs target m s)
  unfolding add_message_generic
  add_message_generic-IsBounded target m s b = go (Maps.get s.client_msg_list m.cid)
    where
      go :
          (found : Option Text)
          → IsBounded max_logs (add_named time date_time max_logs target m found s)
      go none = record { in_all = b.in_all; in_each = b.in_each }
      go (some name) = append_log-IsBounded target m.cid _ s b

  add_messages-IsBounded :
      (target : Target) (messages : List Message) (s : LogState)
      → IsBounded max_logs s
      → IsBounded max_logs (add_messages time date_time max_logs target messages s)
  unfolding add_messages
  add_messages-IsBounded target [] s b = b
  add_messages-IsBounded target (m ∷ messages) s b =
      add_messages-IsBounded target messages
        (add_message_generic time date_time max_logs target m s)
        (add_message_generic-IsBounded target m s b)

  name_found-IsBounded :
      (name : Text) (found : Option (Target × Message)) (rest : List (Target × Message))
      (s : LogState)
      → IsBounded max_logs s
      → IsBounded max_logs (name_found time date_time max_logs name found rest s)
  name_found-IsBounded name none rest s b = b
  name_found-IsBounded name (some (target, m)) rest s b =
      append_log-IsBounded target m.cid _ _ (record { in_all = b.in_all; in_each = b.in_each })

  act-IsBounded :
      (event : LogEvent) (s : LogState)
      → IsBounded max_logs s
      → IsBounded max_logs (act time date_time max_logs event s)
  unfolding act add_message_to_both fetch_logs lookup_reply
  act-IsBounded (receives m) s b =
      add_message_generic-IsBounded single m (add_message_generic time date_time max_logs all m s)
        (add_message_generic-IsBounded all m s b)
  act-IsBounded (fetches target logs) s b = add_messages-IsBounded target (reverse logs) s b
  act-IsBounded (names i name) s b =
      name_found-IsBounded name (get_elem? s.awaiting i)
        (take i s.awaiting ++ drop (suc i) s.awaiting) s b

  IsBounded-act_all :
      (events : List LogEvent) (s : LogState)
      → IsBounded max_logs s
      → IsBounded max_logs (act_all time date_time max_logs events s)
  IsBounded-act_all [] s b = b
  IsBounded-act_all (event ∷ events) s b =
      IsBounded-act_all events (act time date_time max_logs event s) (act-IsBounded event s b)

  -- With a limit, no list has more entries than it allows, after any messages, fetched lists and
  -- replies to lookups in any order.
  pub act_all-IsBounded :
      (events : List LogEvent) → IsBounded max_logs (act_all time date_time max_logs events start)
  act_all-IsBounded events = IsBounded-act_all events start (record {
    in_all = omega arith;
    in_each = λ cid blog e. let blank = get-start cid in absurd cc;
  })
