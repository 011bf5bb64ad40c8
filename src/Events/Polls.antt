-- ===== src/Events/Polls.antt =====
-- EventsViewer.tsx: what the polls leave of an event, from its rows alone.
use mulex_fk.Prelude.{
  ℕ, ◌≡◌, refl, sym, ap, ◌∙◌, true, false, Option, none, some, List, [], ◌∷◌, ◌++◌, append-nil,
  append_assoc, length, All, arith, Bool-cases, inl, inr,
}
use mulex_fk.Prelude.Ends.{slice_last}
use mulex_fk.Prelude.Int.{ℤ}
use mulex_fk.Prelude.Keys.{int_key, same_int, same_int_iff}
use mulex_fk.Stores.Maps
use mulex_fk.Events.Statistics.{
  EventMeta, EventMetaList, ClientsIo, EventRow, new_event, known_event, next_event, read_events,
}
use mulex_fk.Events.Rows.{
  IsWhole, seen, read_of, write_of, is_active, any_active, values, quiet, IsKept, append_value-last,
  known_event-active, known_event-quiet, read_event-whole, read_events-next, get-put_event,
  idle_count,
}

-- One more row of the event.
IsKept-step :
    (row : EventRow) (rows : List EventRow) (cf : Option ClientsIo) (old m : EventMeta)
    (reads writes : List ℕ)
    → is_active row ≡ true
    → IsKept
        (known_event row cf old)
        (reads ++ (read_of row ∷ []))
        (writes ++ (write_of row ∷ []))
        rows
        m
    → IsKept old reads writes (row ∷ rows) m
IsKept-step row rows cf old m reads writes active (a, b, c, d, e) = (
  rw active (
      a
      ∙ ap (λ t. some (slice_last 20 t))
          (append_assoc reads (read_of row ∷ []) (values read_of rows))),
  rw active (
      b
      ∙ ap (λ t. some (slice_last 20 t))
          (append_assoc writes (write_of row ∷ []) (values write_of rows))),
  rw active (c ∙ ground (arith, ap (λ p. p.trigger) (known_event-active row cf old active))),
  d ∙ ap (λ p. p.name) (known_event-active row cf old active),
  e ∙ ap (λ p. p.capture) (known_event-active row cf old active),
)

IsKept-quiet :
    (row : EventRow) (rows : List EventRow) (cf : Option ClientsIo) (old m : EventMeta)
    (reads writes : List ℕ)
    → is_active row ≡ false
    → IsKept (known_event row cf old) reads writes rows m
    → IsKept old reads writes (row ∷ rows) m
IsKept-quiet row rows cf old m reads writes idle (a, b, c, d, e) = (
  rw idle a,
  rw idle b,
  rw idle (
      c
      ∙ idle_count (any_active rows) (quiet rows) old.trigger (length rows) _
          (ap (λ p. p.trigger) (known_event-quiet row cf old idle))),
  d ∙ ap (λ p. p.name) (known_event-quiet row cf old idle),
  e ∙ ap (λ p. p.capture) (known_event-quiet row cf old idle),
)

module _ (e : ℤ) where
  read_events-known :
      (rows : List EventRow) (events : EventMetaList) (old : EventMeta) (reads writes : List ℕ)
      → All IsWhole rows
      → Maps.get events e ≡ some old
      → old.io.lread ≡ some (slice_last 20 reads)
      → old.io.lwrite ≡ some (slice_last 20 writes)
      → (m : EventMeta) × (Maps.get (read_events rows events) e ≡ some m)
        × IsKept old reads writes (seen e rows) m
  read_events-known [] events old reads writes whole found r w = (
    old,
    unfold read_events in found,
    (
      r ∙ ap (λ t. some (slice_last 20 t)) (sym (append-nil reads)),
      w ∙ ap (λ t. some (slice_last 20 t)) (sym (append-nil writes)),
      omega arith,
      refl,
      refl,
    ),
  )
  read_events-known (row ∷ rows) events old reads writes (whole, wholes) found r w =
      let (cf, round) = read_event-whole row events whole in
      let events' = Maps.put events row.eid (next_event row cf (Maps.get events row.eid)) in
      let opened : read_events (row ∷ rows) events ≡ read_events rows events' =
        read_events-next row rows events events' round in
      let put_there =
        get-put_event events row.eid (next_event row cf (Maps.get events row.eid)) e in
      elim (Bool-cases (same_int row.eid e)) [
        | inl here ↦
            let same : row.eid ≡ e = (same_int_iff row.eid e).0 here in
            let known : Maps.get events row.eid ≡ some old = rw same found in
            let found' : Maps.get events' e ≡ some (known_event row cf old) =
              put_there ∙ rw (here, known) refl in
            elim (Bool-cases (is_active row)) [
              | inl active ↦
                  let shape = known_event-active row cf old active in
                  let (m, got, kept) =
                    read_events-known rows events' (known_event row cf old)
                      (reads ++ (read_of row ∷ [])) (writes ++ (write_of row ∷ [])) wholes found'
                      (ap (λ p. p.io.lread) shape
                        ∙ ap some (append_value-last old.io.lread reads (read_of row) r))
                      (ap (λ p. p.io.lwrite) shape
                        ∙ ap some (append_value-last old.io.lwrite writes (write_of row) w)) in
                  (
                    m,
                    ap (λ t. Maps.get t e) opened ∙ got,
                    rw here (IsKept-step row (seen e rows) cf old m reads writes active kept),
                  )
              | inr idle ↦
                  let shape = known_event-quiet row cf old idle in
                  let (m, got, kept) =
                    read_events-known rows events' (known_event row cf old) reads writes wholes
                      found' (ap (λ p. p.io.lread) shape ∙ r) (ap (λ p. p.io.lwrite) shape ∙ w) in
                  (
                    m,
                    ap (λ t. Maps.get t e) opened ∙ got,
                    rw here (IsKept-quiet row (seen e rows) cf old m reads writes idle kept),
                  )
            ]
        | inr there ↦
            let found' : Maps.get events' e ≡ some old = put_there ∙ rw there found in
            let (m, got, kept) =
              read_events-known rows events' old reads writes wholes found' r w in
            (m, ap (λ t. Maps.get t e) opened ∙ got, rw there kept)
      ]

  read_events-unknown :
      (rows rest : List EventRow) (events : EventMetaList) (row : EventRow)
      → All IsWhole rows
      → Maps.get events e ≡ none
      → seen e rows ≡ row ∷ rest
      → (m : EventMeta) × (Maps.get (read_events rows events) e ≡ some m)
        × IsKept (new_event row none) [] [] rest m
  read_events-unknown [] rest events row whole new listed = cc
  read_events-unknown (first ∷ rows) rest events row (whole, wholes) new listed =
      let (cf, round) = read_event-whole first events whole in
      let events' = Maps.put events first.eid (next_event first cf (Maps.get events first.eid)) in
      let opened : read_events (first ∷ rows) events ≡ read_events rows events' =
        read_events-next first rows events events' round in
      let put_there =
        get-put_event events first.eid (next_event first cf (Maps.get events first.eid)) e in
      elim (Bool-cases (same_int first.eid e)) [
        | inl here ↦
            let same : first.eid ≡ e = (same_int_iff first.eid e).0 here in
            let absent : Maps.get events first.eid ≡ none = rw same new in
            let found' : Maps.get events' e ≡ some (new_event first cf) =
              put_there ∙ rw (here, absent) refl in
            let same_row : first ∷ seen e rows ≡ row ∷ rest = rw here at listed in
            let (m, got, kept) =
              read_events-known rows events' (new_event first cf) [] [] wholes found'
                (unfold slice_last in refl) (unfold slice_last in refl) in
            let head : first ≡ row = cc in
            let tail : seen e rows ≡ rest = cc in
            (m, ap (λ t. Maps.get t e) opened ∙ got, rw (← head, ← tail) kept)
        | inr there ↦
            let new' : Maps.get events' e ≡ none = put_there ∙ rw there new in
            let listed' : seen e rows ≡ row ∷ rest = rw there at listed in
            let (m, got, kept) = read_events-unknown rows rest events' row wholes new' listed' in
            (m, ap (λ t. Maps.get t e) opened ∙ got, kept)
      ]

-- After polls whose rows have whole client ids, an event that they name keeps, of the rows behind its
-- first: the reads and the writes of the last 20 that had traffic, in order, and how many stand behind
-- the last of these (all, if none had any). It keeps the name that it first had, and is not captured.
-- Rows of other events do not matter.
pub read_events-IsKept :
    (rows rest : List EventRow) (row : EventRow) (e : ℤ)
    → All IsWhole rows
    → seen e rows ≡ row ∷ rest
    → (m : EventMeta) × (Maps.get (read_events rows []) e ≡ some m)
      × IsKept (new_event row none) [] [] rest m
read_events-IsKept rows rest row e whole listed =
    read_events-unknown e rows rest [] row whole (unfold Maps.get in refl) listed
