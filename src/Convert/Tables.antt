-- ===== src/Convert/Tables.antt =====
-- convert.ts: the tables typeFromTypeid and typeidFromType against each other.
use mulex_fk.Prelude.{ℕ, ◌≡◌, ◌≢◌, ◌↔◌, some, arith}
use mulex_fk.Convert.Names.{TypeName, empty, type_from_typeid, typeid_from_type}

to_id : (id : ℕ) (t : TypeName) → t ≢ empty → type_from_typeid id ≡ t → typeid_from_type t ≡ some id
unfolding type_from_typeid typeid_from_type
to_id id t h e = ground arith

of_id : (id : ℕ) (t : TypeName) → typeid_from_type t ≡ some id → type_from_typeid id ≡ t
unfolding type_from_typeid typeid_from_type
of_id id t e = ground arith

-- An id has a type other than '' exactly when that type has the id: the two tables are inverse.
pub type_from_typeid_iff :
    (id : ℕ) (t : TypeName) → t ≢ empty → (type_from_typeid id ≡ t) ↔ (typeid_from_type t ≡ some id)
type_from_typeid_iff id t h = (to_id id t h, of_id id t)
