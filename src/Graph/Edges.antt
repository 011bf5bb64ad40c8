-- ===== src/Graph/Edges.antt =====
-- DiGraph.tsx: the component DiGraph.
use mulex_fk.Prelude.{ℕ, zero, suc, Bool, Option, none, some, List, [], ◌∷◌, ◌++◌}
use mulex_fk.Prelude.Keys.{number_key, list_key}
use mulex_fk.Prelude.Results.{Result, ok, throw, type_error}
use mulex_fk.Convert.Engine.{Text}
use mulex_fk.Stores.Maps
use mulex_fk.Stores.Maps.{MapStore}

-- The numbers of the browser, as far as the graph computes with them.
pub record Numbers : Type 1 where
  pub Number : Type 0
  pub zero_px : Number
  pub plus : Number → Number → Number
  pub minus : Number → Number → Number
  pub half : Number → Number
  pub is_at_most : Number → Number → Bool

-- NodeProps, without the title and the content that the page shows.
pub record NodeProps (N : Type 0) : Type 0 where
  pub x : N
  pub y : N
  pub id : Text

pub record EdgeProps : Type 0 where
  pub from : Text
  pub to : Text
  pub label : Option Text

-- EdgePropsI.
pub record Edge (N : Type 0) : Type 0 where
  pub s_x : N
  pub s_y : N
  pub e_x : N
  pub e_y : N
  pub label : Option Text

-- `type` of an entry of the table: 'input' or 'output'.
pub data End : Type 0 where
  input output : ℕ → End

pub record Graph (N : Type 0) : Type 0 where
  pub ne_map : MapStore Text (List End)
  pub edges : List (Edge N)
  pub nodes : MapStore Text (NodeProps N)

abbrev pub Lookup : Type 0
Lookup = List (Text × List End)

abbrev pub or_empty : Option (List End) → List End
or_empty none = []
or_empty (some ends) = ends

-- `setLookup(id, i, type)`
unfoldable pub set_lookup : Text → End → Lookup → Lookup
set_lookup id end lookup = Maps.put lookup id (or_empty (Maps.get lookup id) ++ (end ∷ []))

unfoldable pub add_nodes : {N : Type 0} → List (NodeProps N) → Graph N → Graph N
add_nodes [] g = g
add_nodes (node ∷ nodes) g = add_nodes nodes (record g { nodes = Maps.add node.id node g.nodes })

-- The effect of a change of `props.nodes`.
unfoldable pub modify_nodes : {N : Type 0} → List (NodeProps N) → Graph N → Graph N
modify_nodes [] g = g
modify_nodes (node ∷ nodes) g =
    modify_nodes nodes (record g { nodes = Maps.modify node.id node g.nodes })

-- `np[i] = ...` with what was at `i`, which throws where there is nothing.
unfoldable pub change_edge :
    {N : Type 0} → ℕ → (Edge N → Edge N) → List (Edge N) → Result (List (Edge N))
change_edge i f [] = throw type_error
change_edge zero f (edge ∷ edges) = ok (f edge ∷ edges)
change_edge (suc i) f (edge ∷ edges) = elim (change_edge i f edges) [
  | ok rest ↦ ok (edge ∷ rest)
  | throw e ↦ throw e
]

module _ (numbers : Numbers) where
  open numbers use {Number, zero_px, plus, half}

  -- calculateNodeInputLocation, and calculateNodeOutputLocation, which is the same.
  unfoldable pub location : Text → MapStore Text (NodeProps Number) → Number × Number
  location id nodes = elim (Maps.get nodes.entries id) [
    | none ↦ (zero_px, zero_px)
    | some node ↦ (node.x, node.y)
  ]

  -- The loop of onMount over the edges, from the index `i`.
  unfoldable pub mount_edges : List EdgeProps → ℕ → Lookup → Graph Number → Graph Number
  mount_edges [] i lookup g = g
  mount_edges (edge ∷ rest) i lookup g =
      let (ox, oy) = location edge.from g.nodes in
      let (ix, iy) = location edge.to g.nodes in
      let lookup' = set_lookup edge.to (input i) (set_lookup edge.from (output i) lookup) in
      mount_edges rest (suc i) lookup' (record g {
        edges =
            g.edges ++ (record { s_x = ox; s_y = oy; e_x = ix; e_y = iy; label = edge.label } ∷ []);
        ne_map = Maps.set lookup' g.ne_map;
      })

  abbrev pub empty_graph : Graph Number
  empty_graph = record {
    ne_map = record { entries = [] };
    edges = [];
    nodes = record { entries = [] };
  }

  -- onMount.
  unfoldable pub mount : List (NodeProps Number) → List EdgeProps → Graph Number
  mount nodes edges = mount_edges edges 0 [] (add_nodes nodes empty_graph)

  -- What a node tells onChange.
  pub record Place : Type 0 where
    pub x : Number
    pub y : Number
    pub width : Number
    pub height : Number

  abbrev pub move_end : Place → End → List (Edge Number) → Result (List (Edge Number))
  move_end p (input i) np =
      change_edge i (λ e. record e { e_x = p.x; e_y = plus p.y (half p.height) }) np
  move_end p (output i) np =
      change_edge i (λ e. record e { s_x = plus p.x p.width; s_y = plus p.y (half p.height) }) np

  unfoldable pub move_ends : Place → List End → List (Edge Number) → Result (List (Edge Number))
  move_ends p [] np = ok np
  move_ends p (end ∷ ends) np = elim (move_end p end np) [
    | ok np' ↦ move_ends p ends np'
    | throw e ↦ throw e
  ]

  abbrev pub with_edges : Graph Number → Result (List (Edge Number)) → Result (Graph Number)
  with_edges g (ok np) = ok (record g { edges = np })
  with_edges g (throw e) = throw e

  -- A node with no edge is not in the table, and the loop over undefined throws.
  abbrev pub change_found : Place → Graph Number → Option (List End) → Result (Graph Number)
  change_found p g none = throw type_error
  change_found p g (some ends) = with_edges g (move_ends p ends g.edges)

  -- onNodeChange.
  unfoldable pub on_node_change : Text → Place → Graph Number → Result (Graph Number)
  on_node_change id p g = change_found p g (Maps.get g.ne_map.entries id)

-- The effect of a change of `props.edges`: the labels of the edges, by their index.
unfoldable pub relabel : {N : Type 0} → ℕ → List EdgeProps → List (Edge N) → Result (List (Edge N))
relabel i [] np = ok np
relabel i (edge ∷ rest) np = elim (change_edge i (λ e. record e { label = edge.label }) np) [
  | ok np' ↦ relabel (suc i) rest np'
  | throw e ↦ throw e
]
