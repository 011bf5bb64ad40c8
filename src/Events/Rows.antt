-- ===== src/Events/Rows.antt =====
-- EventsViewer.tsx: the rows of an event, and a round of the loop over them.
use mulex_fk.Prelude.{
  ℕ, zero, suc, ◌+◌, ◌*◌, ◌/◌, ◌%◌, ◌≡◌, refl, ap, Bool, true, false, not, ◌&&◌, ◌||◌, Option, none,
  some, List, [], ◌∷◌, ◌++◌, length, length-take, length-drop, take, drop, arith, Bool-cases, inl,
  inr, if◌then◌else◌, ◌==◌,
}
use mulex_fk.Prelude.Ends.{slice_last, slice_last-append}
use mulex_fk.Prelude.Int.{ℤ}
use mulex_fk.Prelude.Keys.{int_key, same_int}
use mulex_fk.Stores.Maps
use mulex_fk.Stores.MapLaws.{get-put}
use mulex_fk.Utils.Units.{event_io_extract}
use mulex_fk.Events.Statistics.{
  EventMeta, EventMetaList, ClientsIo, EventRow, read_clients, compute_clients_io, known_event,
  next_event, append_value, store_event, after_event, read_event, read_events,
}

-- The client ids of a row are words of 8 bytes.
abbrev pub IsWhole : EventRow → Type 0
IsWhole row = length row.clients % 8 ≡ 0

read_clients-total :
    (n : ℕ) (clients frames : List ℕ) (cio : ClientsIo)
    → length clients ≡ 8 * n
    → (cio' : ClientsIo) × (read_clients n clients frames cio ≡ some cio')
unfolding read_clients
read_clients-total zero clients frames cio h = (cio, refl)
read_clients-total (suc n) clients frames cio h =
    let word : (length (take 8 clients) == 8) ≡ true = ground (arith, length-take 8 clients) in
    let left : length (drop 8 clients) ≡ 8 * n = omega (arith, length-drop 8 clients) in
    rw word (read_clients-total n (drop 8 clients) (drop 8 frames) _ left)

compute_clients_io-total :
    (row : EventRow)
    → IsWhole row
    → (cf : Option ClientsIo) × (compute_clients_io row.clients row.frames ≡ some cf)
unfolding compute_clients_io
compute_clients_io-total row whole =
    let (cio, e) =
      read_clients-total ((length row.clients + 7) / 8) row.clients row.frames [] (omega arith) in
    elim (Bool-cases (length row.clients == 0 || length row.frames == 0)) [
      | inl blank ↦ (none, rw blank refl)
      | inr filled ↦ elim (Bool-cases (length row.clients == length row.frames)) [
        | inl alike ↦ (some cio, rw (filled, alike, e) refl)
        | inr unlike ↦ (none, rw (filled, unlike) refl)
      ]
    ]

-- The rows of an event, in order.
abbrev pub seen : ℤ → List EventRow → List EventRow
seen e [] = []
seen e (row ∷ rows) = if same_int row.eid e then row ∷ seen e rows else seen e rows

abbrev pub read_of : EventRow → ℕ
read_of row = (event_io_extract row.io).r

abbrev pub write_of : EventRow → ℕ
write_of row = (event_io_extract row.io).w

abbrev pub is_active : EventRow → Bool
is_active row = not (read_of row == 0 && write_of row == 0)

abbrev pub any_active : List EventRow → Bool
any_active [] = false
any_active (row ∷ rows) = is_active row || any_active rows

-- The values of the rows with traffic.
abbrev pub values : (EventRow → ℕ) → List EventRow → List ℕ
values value [] = []
values value (row ∷ rows) =
    if is_active row then value row ∷ values value rows else values value rows

-- How many rows stand behind the last one with traffic.
abbrev pub quiet : List EventRow → ℕ
quiet [] = 0
quiet (row ∷ rows) =
    if any_active rows then quiet rows else length rows + (if is_active row then 0 else 1)

-- What is kept of an event after it is known: its old state and the rows since.
abbrev pub IsKept : EventMeta → List ℕ → List ℕ → List EventRow → EventMeta → Type 0
IsKept old reads writes rows m =
    (m.io.lread ≡ some (slice_last 20 (reads ++ values read_of rows)))
    × (m.io.lwrite ≡ some (slice_last 20 (writes ++ values write_of rows)))
    × (m.trigger ≡ (if any_active rows then quiet rows else old.trigger + length rows))
    × (m.name ≡ old.name)
    × (m.capture ≡ old.capture)

pub append_value-last :
    (values : Option (List ℕ)) (xs : List ℕ) (value : ℕ)
    → values ≡ some (slice_last 20 xs)
    → append_value values value ≡ slice_last 20 (xs ++ (value ∷ []))
append_value-last values xs value e = rw e (slice_last-append 20 xs (value ∷ []))

pub known_event-active :
    (row : EventRow) (cf : Option ClientsIo) (m : EventMeta)
    → is_active row ≡ true
    → known_event row cf m ≡ record m {
      trigger = 0;
      clients = cf;
      io = record {
        read = read_of row;
        write = write_of row;
        lread = some (append_value m.io.lread (read_of row));
        lwrite = some (append_value m.io.lwrite (write_of row));
      };
    }
known_event-active row cf m h =
    let e : (read_of row == 0 && write_of row == 0) ≡ false = ground arith in rw e refl

pub known_event-quiet :
    (row : EventRow) (cf : Option ClientsIo) (m : EventMeta)
    → is_active row ≡ false
    → known_event row cf m ≡ record m { trigger = m.trigger + 1 }
known_event-quiet row cf m h =
    let e : (read_of row == 0 && write_of row == 0) ≡ true = ground arith in rw e refl

pub read_event-whole :
    (row : EventRow) (events : EventMetaList)
    → IsWhole row
    → (cf : Option ClientsIo) × (read_event row events
        ≡ some (Maps.put events row.eid (next_event row cf (Maps.get events row.eid))))
unfolding read_event
read_event-whole row events whole =
    let (cf, e) = compute_clients_io-total row whole in (cf, ap (store_event row events) e)

pub read_events-next :
    (row : EventRow) (rows : List EventRow) (events events' : EventMetaList)
    → read_event row events ≡ some events'
    → read_events (row ∷ rows) events ≡ read_events rows events'
unfolding read_events
read_events-next row rows events events' h =
    ap (after_event events (λ next. read_events rows next)) h

pub get-put_event :
    (events : EventMetaList) (k : ℤ) (m : EventMeta) (j : ℤ)
    → Maps.get (Maps.put events k m) j ≡ (if same_int k j then some m else Maps.get events j)
get-put_event events k m j = get-put events k m j

pub idle_count :
    (b : Bool) (q t n k : ℕ)
    → k ≡ t + 1
    → (if b then q else k + n) ≡ (if b then (if b then q else n + 1) else t + suc n)
idle_count true q t n k e = refl
idle_count false q t n k e = omega arith
