-- ===== src/Graph/Lookup.antt =====
-- DiGraph.tsx: what the table of edges says once the graph is mounted.
use mulex_fk.Prelude.{
  ℕ, suc, ◌≡◌, refl, ap, sym, ◌∙◌, Bool, true, false, Option, none, some, List, [], ◌∷◌, ◌++◌,
  append_assoc, append-nil, Bool-cases, inl, inr,
}
use mulex_fk.Prelude.Keys.{list_key, number_key, ◌==◌, same_list_iff}
use mulex_fk.Convert.Engine.{Text}
use mulex_fk.Stores.Maps
use mulex_fk.Stores.MapLaws.{HasDistinctKeys, HasDistinctKeys-put, get-put}
use mulex_fk.Stores.Copies.{get-set}
use mulex_fk.Graph.Edges.{
  Numbers, EdgeProps, End, input, output, Graph, Lookup, or_empty, set_lookup, mount_edges, mount,
  NodeProps, add_nodes, empty_graph,
}

abbrev pub only_if : Bool → End → List End
only_if true end = end ∷ []
only_if false end = []

-- The ends at a node, of edges that are counted from `i`.
unfoldable pub ends_of : Text → ℕ → List EdgeProps → List End
ends_of id i [] = []
ends_of id i (edge ∷ edges) =
    only_if (edge.from == id) (output i)
    ++ (only_if (edge.to == id) (input i) ++ ends_of id (suc i) edges)

abbrev pub as_entry : List End → Option (List End)
as_entry [] = none
as_entry (end ∷ ends) = some (end ∷ ends)

or_empty-as_entry : (ends : List End) → or_empty (as_entry ends) ≡ ends
or_empty-as_entry [] = refl
or_empty-as_entry (end ∷ ends) = refl

as_entry-last :
    (ends : List End) (end : End) → as_entry (ends ++ (end ∷ [])) ≡ some (ends ++ (end ∷ []))
as_entry-last [] end = refl
as_entry-last (e ∷ ends) end = refl

-- The table has these ends for each node, and no entry where there are none.
abbrev Says : (Text → List End) → Lookup → Type 0
Says ends lookup = (j : Text) → Maps.get lookup j ≡ as_entry (ends j)

set_lookup-Says :
    (id : Text) (end : End) (ends : Text → List End) (lookup : Lookup)
    → Says ends lookup
    → Says (λ j. ends j ++ only_if (id == j) end) (set_lookup id end lookup)
unfolding set_lookup
set_lookup-Says id end ends lookup says j =
    get-put lookup id (or_empty (Maps.get lookup id) ++ (end ∷ [])) j
    ∙ (elim (Bool-cases (id == j)) [
      | inl same ↦
          let here : id ≡ j = (same_list_iff id j).0 same in
          rw same (
            ap (λ o. some (or_empty o ++ (end ∷ []))) (says id)
            ∙ (ap (λ t. some (t ++ (end ∷ []))) (or_empty-as_entry (ends id) ∙ ap ends here)
                ∙ sym (as_entry-last (ends j) end)))
      | inr other ↦ rw other (says j ∙ ap as_entry (sym (append-nil (ends j))))
    ])

set_lookup-HasDistinctKeys :
    (id : Text) (end : End) (lookup : Lookup)
    → HasDistinctKeys lookup
    → HasDistinctKeys (set_lookup id end lookup)
unfolding set_lookup
set_lookup-HasDistinctKeys id end lookup d =
    HasDistinctKeys-put lookup id (or_empty (Maps.get lookup id) ++ (end ∷ [])) d

module _ (numbers : Numbers) where
  open numbers use {Number}

  -- The table so far, and the store that it is copied to.
  record IsTable (ends : Text → List End) (lookup : Lookup) (g : Graph Number) : Type 0 where
    says : Says ends lookup
    distinct : HasDistinctKeys lookup
    copied : Says ends g.ne_map.entries

  mount_edges-Says :
      (edges : List EdgeProps) (i : ℕ) (ends : Text → List End) (lookup : Lookup) (g : Graph Number)
      → IsTable ends lookup g
      → Says
          (λ j. ends j ++ ends_of j i edges)
          (mount_edges numbers edges i lookup g).ne_map.entries
  unfolding mount_edges ends_of
  mount_edges-Says [] i ends lookup g t j = t.copied j ∙ ap as_entry (sym (append-nil (ends j)))
  mount_edges-Says (edge ∷ edges) i ends lookup g t j =
      let first = set_lookup edge.from (output i) lookup in
      let both = set_lookup edge.to (input i) first in
      let ends' : Text → List End = λ k. ends k ++ only_if (edge.from == k) (output i) in
      let ends'' : Text → List End = λ k. ends' k ++ only_if (edge.to == k) (input i) in
      let says' : Says ends'' both =
        set_lookup-Says edge.to (input i) ends' first
          (set_lookup-Says edge.from (output i) ends lookup t.says) in
      let distinct' : HasDistinctKeys both =
        set_lookup-HasDistinctKeys edge.to (input i) first
          (set_lookup-HasDistinctKeys edge.from (output i) lookup t.distinct) in
      mount_edges-Says edges (suc i) ends'' both _
        (record {
          says = says';
          distinct = distinct';
          copied = λ k. get-set both g.ne_map k distinct' ∙ says' k;
        })
        j
      ∙ ap as_entry (
          append_assoc (ends' j) (only_if (edge.to == j) (input i)) (ends_of j (suc i) edges)
          ∙ append_assoc (ends j) (only_if (edge.from == j) (output i)) _)

  add_nodes-ne_map :
      (nodes : List (NodeProps Number)) (g : Graph Number) → (add_nodes nodes g).ne_map ≡ g.ne_map
  unfolding add_nodes
  add_nodes-ne_map [] g = refl
  add_nodes-ne_map (node ∷ nodes) g = add_nodes-ne_map nodes _

  -- Once mounted, the table has the ends at each node, by their index and in order.
  pub mount-ends :
      (nodes : List (NodeProps Number)) (edges : List EdgeProps) (id : Text)
      → Maps.get (mount numbers nodes edges).ne_map.entries id ≡ as_entry (ends_of id 0 edges)
  unfolding mount Maps.get
  mount-ends nodes edges id =
      mount_edges-Says edges 0 (λ j. []) [] (add_nodes nodes (empty_graph numbers))
        (record {
          says = λ j. refl;
          distinct = tt;
          copied =
              λ j. ap (λ m. Maps.get m.entries j) (add_nodes-ne_map nodes (empty_graph numbers));
        })
        id
