-- ===== src/Events/Kept.antt =====
-- EventsViewer.tsx: the stores of the captured events against each other.
use mulex_fk.Prelude.{
  Bool, true, false, ◌≡◌, refl, arith, Option, none, some, List, [], Bool-cases, inl, inr, ℕ,
  length, ◌+◌,
}
use mulex_fk.Prelude.Int.{ℤ}
use mulex_fk.Prelude.Keys.{int_key, same_int_iff}
use mulex_fk.Stores.Sets
use mulex_fk.Stores.Sets.{add_value, remove_value}
use mulex_fk.Stores.SetLaws.{run-after_set}
use mulex_fk.Stores.Maps
use mulex_fk.Stores.Maps.{add_entry, remove_entry}
use mulex_fk.Stores.MapLaws.{run-after_map, is_bound, get-put, get-delete}
use mulex_fk.Calls.Servers.{Server, run}
use mulex_fk.Events.Statistics.{EventMeta}
use mulex_fk.Events.Capture.{
  CaptureMeta, Captures, begin_capture, leave_set, drop_captured, mark, set_capture, is_positive,
  modify_capture, keep_frame, on_frame, CaptureAction, switches, frames, capture,
}

-- An event that is captured, and no other, has a frame, a count of bytes and an entry for its view.
pub record IsCapturing (s : Captures) : Type 0 where
  pub with_data : (j : ℤ) → Sets.has s.capture_set.values j ≡ is_bound (Maps.get s.capture_data j)
  pub with_meta : (j : ℤ) → Sets.has s.capture_set.values j ≡ is_bound (Maps.get s.capture_meta j)
  pub with_view :
      (j : ℤ) → Sets.has s.capture_set.values j ≡ is_bound (Maps.get s.capture_collapse.entries j)

begin_capture-IsCapturing :
    (eid : ℤ) (s : Captures) → IsCapturing s → IsCapturing (begin_capture eid s)
begin_capture-IsCapturing eid s v = record {
  with_data = λ j. ground (
    arith,
    run-after_set (add_value eid) s.capture_set j,
    get-put s.capture_data eid [] j,
    v.with_data j,
  );
  with_meta = λ j. ground (
    arith,
    run-after_set (add_value eid) s.capture_set j,
    get-put s.capture_meta eid (record { totalbytes = 0; auto_capture = true }) j,
    v.with_meta j,
  );
  with_view = λ j. ground (
    arith,
    run-after_set (add_value eid) s.capture_set j,
    run-after_map (add_entry eid false) s.capture_collapse j,
    v.with_view j,
  );
}

end_capture-IsCapturing :
    (eid : ℤ) (s : Captures) → IsCapturing s → IsCapturing (drop_captured eid (leave_set eid s))
end_capture-IsCapturing eid s v = record {
  with_data = λ j. ground (
    arith,
    run-after_set (remove_value eid) s.capture_set j,
    get-delete s.capture_data eid j,
    v.with_data j,
  );
  with_meta = λ j. ground (
    arith,
    run-after_set (remove_value eid) s.capture_set j,
    get-delete s.capture_meta eid j,
    v.with_meta j,
  );
  with_view = λ j. ground (
    arith,
    run-after_set (remove_value eid) s.capture_set j,
    run-after_map (remove_entry eid) s.capture_collapse j,
    v.with_view j,
  );
}

module _ (server : Server) (w : server.State) where
  set_capture-IsCapturing :
      (eid : ℤ) (value : Bool) (found : Option EventMeta) (s : Captures)
      → IsCapturing s
      → IsCapturing (run server (set_capture eid value found) s w).state
  unfolding run
  set_capture-IsCapturing eid value none s v = v
  set_capture-IsCapturing eid true (some evt) s v =
      begin_capture-IsCapturing eid (mark eid true evt s)
        (record { with_data = v.with_data; with_meta = v.with_meta; with_view = v.with_view })
  set_capture-IsCapturing eid false (some evt) s v =
      end_capture-IsCapturing eid (mark eid false evt s)
        (record { with_data = v.with_data; with_meta = v.with_meta; with_view = v.with_view })

  keep_frame-IsCapturing :
      (eid : ℤ) (frame : List ℕ) (found : Option CaptureMeta) (s : Captures)
      → Maps.get s.capture_meta eid ≡ found
      → IsCapturing s
      → IsCapturing (run server (keep_frame eid frame found) s w).state
  unfolding run
  keep_frame-IsCapturing eid frame none s e v = v
  keep_frame-IsCapturing eid frame (some p) s e v = elim (Bool-cases p.auto_capture) [
    | inr off ↦ rw off v
    | inl on ↦ rw on (record {
      with_data = λ j. ground (
        arith,
        get-put s.capture_data eid frame j,
        v.with_data j,
        v.with_meta j,
        same_int_iff eid j,
      );
      with_meta = λ j. ground (
        arith,
        get-put s.capture_meta eid (record p { totalbytes = p.totalbytes + length frame }) j,
        v.with_meta j,
        same_int_iff eid j,
      );
      with_view = v.with_view;
    })
  ]

-- If the captured events are those that have a frame, a count of bytes and an entry for their
-- view, then they are so after capturing is switched on or off for the event of the popup and
-- after a frame of any event, whatever the server does.
pub capture-IsCapturing :
    (server : Server) (action : CaptureAction) (s : Captures) (w : server.State)
    → IsCapturing s
    → IsCapturing (run server (capture action) s w).state
unfolding run capture modify_capture on_frame
capture-IsCapturing server (switches value) s w v = elim (Bool-cases (is_positive s.popup_id)) [
  | inl shown ↦
      rw (run, shown)
        (set_capture-IsCapturing server w s.popup_id value (Maps.get s.events_meta s.popup_id) s v)
  | inr hidden ↦ rw (run, hidden) v
]
capture-IsCapturing server (frames eid frame) s w v =
    keep_frame-IsCapturing server w eid frame (Maps.get s.capture_meta eid) _ refl
      (record { with_data = v.with_data; with_meta = v.with_meta; with_view = v.with_view })
