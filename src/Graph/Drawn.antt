-- ===== src/Graph/Drawn.antt =====
-- DiGraph.tsx: a change of one node, for the edges at it.
use mulex_fk.Prelude.{
  suc, ◌≡◌, refl, ap, sym, ◌∙◌, Bool, true, false, ◌||◌, List, [], ◌∷◌, ◌++◌, map, length,
  length-append, append_assoc, Bool-cases, inl, inr, if◌then◌else◌, arith,
}
use mulex_fk.Prelude.Keys.{list_key, number_key, ◌==◌}
use mulex_fk.Prelude.Results.{Result, ok, throw}
use mulex_fk.Convert.Engine.{Text}
use mulex_fk.Stores.Maps.{MapStore}
use mulex_fk.Graph.Edges.{
  Numbers, NodeProps, EdgeProps, Edge, End, input, output, change_edge, location, Place, move_end,
  move_ends, add_nodes, empty_graph,
}
use mulex_fk.Graph.Lookup.{only_if, ends_of}

-- Whether the node is at an end of one of the edges.
unfoldable pub touches : Text → List EdgeProps → Bool
touches id [] = false
touches id (edge ∷ edges) = edge.from == id || (edge.to == id || touches id edges)

change_edge-append :
    {N : Type 0} (f : Edge N → Edge N) (front : List (Edge N)) (e : Edge N) (back : List (Edge N))
    → change_edge (length front) f (front ++ (e ∷ back)) ≡ ok (front ++ (f e ∷ back))
unfolding change_edge
change_edge-append f [] e back = refl
change_edge-append f (x ∷ front) e back = rw (change_edge-append f front e back) refl

module _ (numbers : Numbers) where
  open numbers use {Number, plus, half}

  -- Where the edges leave each node, and where they come in.
  pub record Positions : Type 0 where
    pub leave : Text → Number × Number
    pub enter : Text → Number × Number

  abbrev pub draw : Positions → EdgeProps → Edge Number
  draw at edge = record {
    s_x = (at.leave edge.from).0;
    s_y = (at.leave edge.from).1;
    e_x = (at.enter edge.to).0;
    e_y = (at.enter edge.to).1;
    label = edge.label;
  }

  -- The node tells its place: edges leave from the middle of its right side, and enter at the middle of
  -- its left one.
  abbrev pub moved : Text → Place numbers → Positions → Positions
  moved id p at = record {
    leave = λ k. if k == id then (plus p.x p.width, plus p.y (half p.height)) else at.leave k;
    enter = λ k. if k == id then (p.x, plus p.y (half p.height)) else at.enter k;
  }

  abbrev pub moved_all : List (Text × Place numbers) → Positions → Positions
  moved_all [] at = at
  moved_all ((id, p) ∷ changes) at = moved_all changes (moved id p at)

  -- The positions that onMount takes, those of the nodes themselves.
  abbrev pub at_nodes : MapStore Text (NodeProps Number) → Positions
  at_nodes nodes =
      let at = λ (id : Text). location numbers id nodes in record { leave = at; enter = at }

  abbrev pub initial : List (NodeProps Number) → Positions
  initial nodes = at_nodes (add_nodes nodes (empty_graph numbers)).nodes

  module _ (id : Text) (p : Place numbers) where
    abbrev leave_from : Bool → Edge Number → Edge Number
    leave_from true e = record e { s_x = plus p.x p.width; s_y = plus p.y (half p.height) }
    leave_from false e = e

    abbrev enter_at : Bool → Edge Number → Edge Number
    enter_at true e = record e { e_x = p.x; e_y = plus p.y (half p.height) }
    enter_at false e = e

    enter_at-leave_from :
        (at : Positions) (edge : EdgeProps)
        → enter_at (edge.to == id) (leave_from (edge.from == id) (draw at edge))
          ≡ draw (moved id p at) edge
    enter_at-leave_from at edge = elim (Bool-cases (edge.to == id)) [
      | inl enters ↦ elim (Bool-cases (edge.from == id)) [
        | inl leaves ↦ rw (enters, leaves) refl
        | inr stays ↦ rw (enters, stays) refl
      ]
      | inr stays ↦ elim (Bool-cases (edge.from == id)) [
        | inl leaves ↦ rw (stays, leaves) refl
        | inr stays' ↦ rw (stays, stays') refl
      ]
    ]

    move_ends-step :
        (end : End) (ends : List End) (np np' : List (Edge Number))
        → move_end numbers p end np ≡ ok np'
        → move_ends numbers p (end ∷ ends) np ≡ move_ends numbers p ends np'
    unfolding move_ends
    move_ends-step end ends np np' e =
        ap
          (λ (r : Result (List (Edge Number))). (elim r [
            | ok edges ↦ move_ends numbers p ends edges
            | throw e ↦ throw e
          ]))
          e

    move_ends-output :
        (leaves : Bool) (ends : List End) (front : List (Edge Number)) (e : Edge Number)
        (back : List (Edge Number))
        → move_ends numbers p (only_if leaves (output (length front)) ++ ends) (front ++ (e ∷ back))
          ≡ move_ends numbers p ends (front ++ (leave_from leaves e ∷ back))
    move_ends-output true ends front e back =
        move_ends-step (output (length front)) ends _ _ (change_edge-append _ front e back)
    move_ends-output false ends front e back = refl

    move_ends-input :
        (enters : Bool) (ends : List End) (front : List (Edge Number)) (e : Edge Number)
        (back : List (Edge Number))
        → move_ends numbers p (only_if enters (input (length front)) ++ ends) (front ++ (e ∷ back))
          ≡ move_ends numbers p ends (front ++ (enter_at enters e ∷ back))
    move_ends-input true ends front e back =
        move_ends-step (input (length front)) ends _ _ (change_edge-append _ front e back)
    move_ends-input false ends front e back = refl

    pub move_ends-draw :
        (at : Positions) (front : List (Edge Number)) (edges : List EdgeProps)
        → move_ends numbers p (ends_of id (length front) edges) (front ++ map (draw at) edges)
          ≡ ok (front ++ map (draw (moved id p at)) edges)
    unfolding ends_of
    move_ends-draw at front [] = unfold move_ends in refl
    move_ends-draw at front (edge ∷ edges) =
        let e : Edge Number = leave_from (edge.from == id) (draw at edge) in
        let shifted : suc (length front) ≡ length (front ++ (draw (moved id p at) edge ∷ [])) =
          omega (arith, length-append front (draw (moved id p at) edge ∷ [])) in
        move_ends-output (edge.from == id) _ front (draw at edge) (map (draw at) edges)
        ∙ (move_ends-input (edge.to == id) (ends_of id (suc (length front)) edges) front e
              (map (draw at) edges)
            ∙ (ap
                  (λ (x : Edge Number).
                    move_ends numbers p (ends_of id (suc (length front)) edges)
                      (front ++ (x ∷ map (draw at) edges)))
                  (enter_at-leave_from at edge)
                ∙ (ap
                      (λ n.
                        move_ends numbers p (ends_of id n edges)
                          (front ++ (draw (moved id p at) edge ∷ map (draw at) edges)))
                      shifted
                    ∙ (ap
                          (move_ends numbers p
                            (ends_of id (length (front ++ (draw (moved id p at) edge ∷ []))) edges))
                          (sym (
                            append_assoc front (draw (moved id p at) edge ∷ [])
                              (map (draw at) edges)))
                        ∙ (move_ends-draw at (front ++ (draw (moved id p at) edge ∷ [])) edges
                            ∙ ap ok (append_assoc front (draw (moved id p at) edge ∷ []) _))))))
