-- ===== src/Graph/Drawing.antt =====
-- DiGraph.tsx: the components DiNode and DiEdge.
use mulex_fk.Prelude.{Bool, true, false, Option, none, some, if◌then◌else◌}
use mulex_fk.Convert.Engine.{Text}
use mulex_fk.Graph.Edges.{Numbers, NodeProps, Edge, Place}

module _ (numbers : Numbers) where
  open numbers use {Number, zero_px, minus, is_at_most}

  -- The state of a DiNode. Before the mouse has been pressed, `grip` is `lx` and `ly` with no value.
  pub record DiNode : Type 0 where
    pub dragging : Bool
    pub pos : Number × Number
    pub input_h_offset : Number
    pub input_w_offset : Number
    pub grip : Option (Number × Number)

  abbrev pub fresh_node : NodeProps Number → DiNode
  fresh_node p = record {
    dragging = false;
    pos = (p.x, p.y);
    input_h_offset = zero_px;
    input_w_offset = zero_px;
    grip = none;
  }

  -- `offsetWidth` and `offsetHeight` of the element.
  pub record Size : Type 0 where
    pub width : Number
    pub height : Number

  -- What is told to onChange: the id and the place.
  abbrev pub Told : Type 0
  Told = Option (Text × Place numbers)

  abbrev pub place : Number × Number → Size → Place numbers
  place (x, y) size = record { x = x; y = y; width = size.width; height = size.height }

  -- onMount, and the effect that takes the size again.
  unfoldable pub mount_node : NodeProps Number → Size → DiNode → DiNode × Told
  mount_node p size s = (
    record s { input_h_offset = size.height; input_w_offset = size.width },
    some (p.id, place (p.x, p.y) size),
  )

  unfoldable pub mouse_down : (client : Number × Number) → DiNode → DiNode
  mouse_down (x, y) s = record s { dragging = true; grip = some (minus x s.pos.0, minus y s.pos.1) }

  -- The mouse has been pressed whenever `dragging` is set; with no grip there is no number to subtract.
  abbrev pub drag_to :
      NodeProps Number → Size → Number × Number → Option (Number × Number) → DiNode → DiNode × Told
  drag_to p size client none s = (s, none)
  drag_to p size (x, y) (some (lx, ly)) s = (
    record s { pos = (minus x lx, minus y ly) },
    some (p.id, place (minus x lx, minus y ly) size),
  )

  unfoldable pub mouse_move :
      NodeProps Number → Size → (client : Number × Number) → DiNode → DiNode × Told
  mouse_move p size client s = if s.dragging then drag_to p size client s.grip s else (s, none)

  unfoldable pub mouse_up : DiNode → DiNode
  mouse_up s = record s { dragging = false }

  -- findQuadrant
  pub data Quadrant : Type 0 where
    first second third fourth : Quadrant

  unfoldable pub find_quadrant : Edge Number → Quadrant
  find_quadrant e =
      if is_at_most e.s_x e.e_x
      then (if is_at_most e.s_y e.e_y then first else third)
      else (if is_at_most e.s_y e.e_y then second else fourth)

  -- calculatePath: the numbers of `M x y x' y'`, the two ends of the line in the box of the edge.
  abbrev pub path_in : Quadrant → Edge Number → (Number × Number) × (Number × Number)
  path_in first e = ((zero_px, zero_px), (minus e.e_x e.s_x, minus e.e_y e.s_y))
  path_in second e = ((minus e.s_x e.e_x, zero_px), (zero_px, minus e.e_y e.s_y))
  path_in third e = ((zero_px, minus e.s_y e.e_y), (minus e.e_x e.s_x, zero_px))
  path_in fourth e = ((minus e.s_x e.e_x, minus e.s_y e.e_y), (zero_px, zero_px))

  unfoldable pub calculate_path : Edge Number → (Number × Number) × (Number × Number)
  unfolding find_quadrant
  calculate_path e = path_in (find_quadrant e) e
