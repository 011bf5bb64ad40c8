-- ===== src/Tests/Tables.antt =====
-- rset.ts and rmap.ts on concrete values.
use mulex_fk.Prelude.{ℕ, ◌≡◌, some, [], ◌∷◌}
use mulex_fk.Prelude.Keys.{number_key}
use mulex_fk.Stores.Sets.{SetStore}
use mulex_fk.Stores.Maps
use mulex_fk.Stores.Maps.{MapStore, modify_entry, add_entry}
use mulex_fk.Stores.MapLaws.{run-after_map}

abbrev two_values : SetStore ℕ
two_values = record { values = 3 ∷ 5 ∷ [] }

abbrev two_entries : MapStore ℕ ℕ
two_entries = record { entries = (3, 30) ∷ (5, 50) ∷ [] }

run-after_map_example : Maps.get (Maps.run (modify_entry 5 51) two_entries).entries 5 ≡ some 51
unfolding Maps.has Maps.get
run-after_map_example = run-after_map (modify_entry 5 51) two_entries 5
