-- ===== src/History/Plot.antt =====
-- HistoryViewer.tsx: the data of a HistoryPlot, one row of times and one row of values for each option.
use mulex_fk.Prelude.{
  ℕ, zero, suc, ◌≡◌, refl, ap, ◌∙◌, sym, Option, none, some, List, [], ◌∷◌, ◌++◌, map, append_assoc,
  append-nil, if◌then◌else◌, ◌==◌,
}
use mathlib.Core.Path.{ap₂}
use mathlib.Core.List.{map-append}
use mulex_fk.Prelude.Ends.{slice_last, slice_last-append}

module _ (Time Value : Type 0) where
  -- `data_ts` and `data_mod`; `none` is undefined.
  pub record Series : Type 0 where
    pub data_ts : List Time
    pub data_mod : List (List (Option Value))

  -- A value of the option's key, at the time of its arrival.
  pub record Arrival : Type 0 where
    pub option : ℕ
    pub value : Value
    pub time : Time

  -- What the row of an option has for an arrival.
  abbrev pub cell : ℕ → Arrival → Option Value
  cell j a = if j == a.option then some a.value else none

  unfoldable pub empty_rows : ℕ → List (List (Option Value))
  empty_rows zero = []
  empty_rows (suc n) = [] ∷ empty_rows n

  -- onMount
  unfoldable pub mounted : ℕ → Series
  mounted options = record { data_ts = []; data_mod = empty_rows options }

  unfoldable pub push_rows : ℕ → Arrival → List (List (Option Value)) → List (List (Option Value))
  push_rows j a [] = []
  push_rows j a (row ∷ rows) = slice_last 100 (row ++ (cell j a ∷ [])) ∷ push_rows (suc j) a rows

  -- The callback of rdb.watch.
  unfoldable pub receive : Arrival → Series → Series
  unfolding push_rows
  receive a s = record {
    data_ts = slice_last 100 (s.data_ts ++ (a.time ∷ []));
    data_mod = push_rows 0 a s.data_mod;
  }

  unfoldable pub receive_all : List Arrival → Series → Series
  unfolding receive
  receive_all [] s = s
  receive_all (a ∷ seen) s = receive_all seen (receive a s)

  -- The last 100 arrivals, from the whole history: row by row, from an option on.
  abbrev pub recent_rows : ℕ → ℕ → List Arrival → List (List (Option Value))
  recent_rows j zero seen = []
  recent_rows j (suc n) seen = slice_last 100 (map (cell j) seen) ∷ recent_rows (suc j) n seen

  abbrev pub recent : ℕ → List Arrival → Series
  recent options seen = record {
    data_ts = slice_last 100 (map (λ a. a.time) seen);
    data_mod = recent_rows 0 options seen;
  }

  row-step :
      {B : Type 0} (f : Arrival → B) (seen : List Arrival) (a : Arrival)
      → slice_last 100 (slice_last 100 (map f seen) ++ (f a ∷ []))
        ≡ slice_last 100 (map f (seen ++ (a ∷ [])))
  row-step f seen a =
      slice_last-append 100 (map f seen) (f a ∷ [])
      ∙ ap (slice_last 100) (sym (map-append f seen (a ∷ [])))

  rows-step :
      (j n : ℕ) (seen : List Arrival) (a : Arrival)
      → push_rows j a (recent_rows j n seen) ≡ recent_rows j n (seen ++ (a ∷ []))
  unfolding push_rows
  rows-step j zero seen a = refl
  rows-step j (suc n) seen a =
      ap₂ (λ row rows. row ∷ rows) (row-step (cell j) seen a) (rows-step (suc j) n seen a)

  receive-recent :
      (options : ℕ) (seen : List Arrival) (a : Arrival)
      → receive a (recent options seen) ≡ recent options (seen ++ (a ∷ []))
  unfolding receive
  receive-recent options seen a =
      ap₂ (λ ts rows. record { data_ts = ts; data_mod = rows }) (row-step (λ x. x.time) seen a)
        (rows-step 0 options seen a)

  receive_all-recent :
      (options : ℕ) (before seen : List Arrival)
      → receive_all seen (recent options before) ≡ recent options (before ++ seen)
  unfolding receive_all
  receive_all-recent options before [] = ap (recent options) (sym (append-nil before))
  receive_all-recent options before (a ∷ seen) =
      ap (receive_all seen) (receive-recent options before a)
      ∙ receive_all-recent options (before ++ (a ∷ [])) seen
      ∙ ap (recent options) (append_assoc before (a ∷ []) seen)

  mounted_lem : (options : ℕ) → mounted options ≡ recent options []
  unfolding mounted empty_rows slice_last
  mounted_lem options = ap (λ rows. record { data_ts = []; data_mod = rows }) (go 0 options)
    where
      go : (j n : ℕ) → empty_rows n ≡ recent_rows j n []
      go j zero = refl
      go j (suc n) = ap (λ rows. [] ∷ rows) (go (suc j) n)

  -- After any arrivals, for a display of any number of options, its rows are those of the last 100
  -- arrivals: every row has an entry for each of them, and an arrival has its value in one row.
  pub receive_all-mounted :
      (options : ℕ) (seen : List Arrival) → receive_all seen (mounted options) ≡ recent options seen
  receive_all-mounted options seen =
      ap (receive_all seen) (mounted_lem options) ∙ receive_all-recent options [] seen
