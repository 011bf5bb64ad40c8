-- ===== src/Graph/Followed.antt =====
-- DiGraph.tsx: where the edges end, after any changes of the nodes.
use mulex_fk.Prelude.{
  ℕ, suc, ◌≡◌, ◌↔◌, refl, ap, sym, ◌∙◌, true, false, some, List, [], ◌∷◌, ◌++◌, map, append_assoc,
  append-nil, Bool-cases, inl, inr, arith,
}
use mulex_fk.Prelude.Keys.{list_key, number_key, ◌==◌}
use mulex_fk.Prelude.Results.{Result, ok, throw, type_error, ok_injective}
use mulex_fk.Convert.Engine.{Text}
use mulex_fk.Stores.Maps
use mulex_fk.Stores.Maps.{MapStore}
use mulex_fk.Graph.Edges.{
  Numbers, NodeProps, EdgeProps, Graph, Lookup, mount_edges, mount, Place, move_ends, Edge,
  with_edges, change_found, on_node_change, add_nodes, empty_graph,
}
use mulex_fk.Graph.Lookup.{ends_of, as_entry, mount-ends}
use mulex_fk.Graph.Drawn.{
  Positions, at_nodes, touches, draw, moved, moved_all, initial, move_ends-draw,
}

touched-entry :
    (id : Text) (i : ℕ) (edges : List EdgeProps)
    → touches id edges ≡ true
    → as_entry (ends_of id i edges) ≡ some (ends_of id i edges)
unfolding touches ends_of
touched-entry id i [] h = cc
touched-entry id i (edge ∷ edges) h = elim (Bool-cases (edge.from == id)) [
  | inl leaves ↦ rw leaves refl
  | inr stays ↦ elim (Bool-cases (edge.to == id)) [
    | inl enters ↦ rw (stays, enters) refl
    | inr stays' ↦ rw (stays, stays') (touched-entry id (suc i) edges (rw (stays, stays') at h))
  ]
]

untouched-ends :
    (id : Text) (i : ℕ) (edges : List EdgeProps)
    → touches id edges ≡ false
    → ends_of id i edges ≡ []
unfolding touches ends_of
untouched-ends id i [] h = refl
untouched-ends id i (edge ∷ edges) h = elim (Bool-cases (edge.from == id)) [
  | inl leaves ↦ ground (arith, leaves)
  | inr stays ↦ elim (Bool-cases (edge.to == id)) [
    | inl enters ↦ ground (arith, stays, enters)
    | inr stays' ↦ rw (stays, stays') (untouched-ends id (suc i) edges (rw (stays, stays') at h))
  ]
]

module _ (numbers : Numbers) where
  open numbers use {Number}

  -- A handler that throws leaves the graph as it is.
  abbrev pub after_change : Graph Number → Result (Graph Number) → Graph Number
  after_change g (ok g') = g'
  after_change g (throw e) = g

  -- The nodes tell their places, one after the other.
  unfoldable pub change_all : List (Text × Place numbers) → Graph Number → Graph Number
  change_all [] g = g
  change_all ((id, p) ∷ changes) g =
      change_all changes (after_change g (on_node_change numbers id p g))

  -- The table has the ends at each node, and the edges end where the nodes are.
  record IsDrawn (edges : List EdgeProps) (at : Positions numbers) (g : Graph Number) : Type 0 where
    tabled : (id : Text) → Maps.get g.ne_map.entries id ≡ as_entry (ends_of id 0 edges)
    drawn : g.edges ≡ map (draw numbers at) edges

  mount_edges-edges :
      (edges : List EdgeProps) (i : ℕ) (lookup : Lookup) (g : Graph Number)
      → (mount_edges numbers edges i lookup g).edges
        ≡ g.edges ++ map (draw numbers (at_nodes numbers g.nodes)) edges
  unfolding mount_edges
  mount_edges-edges [] i lookup g = sym (append-nil g.edges)
  mount_edges-edges (edge ∷ edges) i lookup g =
      mount_edges-edges edges (suc i) _ _ ∙ append_assoc g.edges (_ ∷ []) _

  add_nodes-edges :
      (nodes : List (NodeProps Number)) (g : Graph Number) → (add_nodes nodes g).edges ≡ g.edges
  unfolding add_nodes
  add_nodes-edges [] g = refl
  add_nodes-edges (node ∷ nodes) g = add_nodes-edges nodes _

  mount-IsDrawn :
      (nodes : List (NodeProps Number)) (edges : List EdgeProps)
      → IsDrawn edges (initial numbers nodes) (mount numbers nodes edges)
  unfolding mount
  mount-IsDrawn nodes edges = record {
    tabled = mount-ends numbers nodes edges;
    drawn =
        mount_edges-edges edges 0 [] (add_nodes nodes (empty_graph numbers))
        ∙ ap (λ front. front ++ map (draw numbers (initial numbers nodes)) edges)
            (add_nodes-edges nodes (empty_graph numbers));
  }

  move_ends-none : (p : Place numbers) (np : List (Edge Number)) → move_ends numbers p [] np ≡ ok np
  unfolding move_ends
  move_ends-none p np = refl

  module _ (edges : List EdgeProps) (at : Positions numbers) (g : Graph Number)
      (v : IsDrawn edges at g) (id : Text) (p : Place numbers) where
    on_node_change-touched :
        touches id edges ≡ true
        → on_node_change numbers id p g
          ≡ ok (record g { edges = map (draw numbers (moved numbers id p at)) edges })
    unfolding on_node_change
    on_node_change-touched h =
        ap (change_found numbers p g) (v.tabled id ∙ touched-entry id 0 edges h)
        ∙ ap (with_edges numbers g) (
            ap (move_ends numbers p (ends_of id 0 edges)) v.drawn
            ∙ move_ends-draw numbers id p at [] edges)

    on_node_change-untouched :
        touches id edges ≡ false → on_node_change numbers id p g ≡ throw type_error
    unfolding on_node_change
    on_node_change-untouched h =
        ap (change_found numbers p g) (v.tabled id ∙ ap as_entry (untouched-ends id 0 edges h))

    -- A node that is at no edge can tell any place.
    untouched-drawn :
        touches id edges ≡ false
        → map (draw numbers at) edges ≡ map (draw numbers (moved numbers id p at)) edges
    untouched-drawn h = ok_injective (
        sym (move_ends-none p (map (draw numbers at) edges))
        ∙ (ap (λ ends. move_ends numbers p ends (map (draw numbers at) edges))
              (sym (untouched-ends id 0 edges h))
            ∙ move_ends-draw numbers id p at [] edges))

    on_node_change-IsDrawn :
        IsDrawn edges (moved numbers id p at) (after_change g (on_node_change numbers id p g))
    on_node_change-IsDrawn = elim (Bool-cases (touches id edges)) [
      | inl here ↦ rw (on_node_change-touched here) (record { tabled = v.tabled; drawn = refl })
      | inr apart ↦
          rw (on_node_change-untouched apart)
            (record { tabled = v.tabled; drawn = v.drawn ∙ untouched-drawn apart })
    ]

  change_all-IsDrawn :
      (edges : List EdgeProps) (changes : List (Text × Place numbers)) (at : Positions numbers)
      (g : Graph Number)
      → IsDrawn edges at g
      → IsDrawn edges (moved_all numbers changes at) (change_all changes g)
  unfolding change_all
  change_all-IsDrawn edges [] at g v = v
  change_all-IsDrawn edges ((id, p) ∷ changes) at g v =
      change_all-IsDrawn edges changes (moved numbers id p at) _
        (on_node_change-IsDrawn edges at g v id p)

-- After the graph is mounted and any nodes have told any places, in any order, each edge leaves and enters
-- its two nodes where they last told to be, or, before they tell, at the positions that they have in the
-- props; the labels are those of the props. A node then tells its place without an exception exactly if it
-- is at some edge.
pub change_all-drawn :
    (numbers : Numbers) (nodes : List (NodeProps numbers.Number)) (edges : List EdgeProps)
    (changes : List (Text × Place numbers))
    → let g = change_all numbers changes (mount numbers nodes edges) in
      (g.edges ≡ map (draw numbers (moved_all numbers changes (initial numbers nodes))) edges)
      × ((id : Text) (p : Place numbers)
          → (on_node_change numbers id p g ≡ throw type_error) ↔ (touches id edges ≡ false))
change_all-drawn numbers nodes edges changes =
    let v =
      change_all-IsDrawn numbers edges changes (initial numbers nodes) (mount numbers nodes edges)
        (mount-IsDrawn numbers nodes edges) in
    (
      v.drawn,
      λ id p. (
        λ thrown. elim (Bool-cases (touches id edges)) [
          | inl here ↦ let fine = on_node_change-touched numbers edges _ _ v id p here in cc
          | inr apart ↦ apart
        ],
        λ apart. on_node_change-untouched numbers edges _ _ v id p apart,
      ),
    )
