-- ===== src/Events/Capture.antt =====
-- EventsViewer.tsx: modifyCapture, its callback, and eventGotNewFrame.
use mulex_fk.Prelude.{
  ℕ, zero, suc, ◌+◌, Bool, true, false, Option, none, some, List, [], length, if◌then◌else◌,
}
use mulex_fk.Prelude.Int.{ℤ, pos, negsuc}
use mulex_fk.Prelude.Keys.{int_key}
use mulex_fk.Prelude.Results.{type_error}
use mulex_fk.Stores.Sets
use mulex_fk.Stores.Sets.{SetStore, add_value, remove_value}
use mulex_fk.Stores.Maps
use mulex_fk.Stores.Maps.{MapStore, add_entry, remove_entry}
use mulex_fk.Calls.Jobs.{Job, subscribes, unsubscribes, done, throws, look, modify, launch, ◌>>◌}
use mulex_fk.Events.Statistics.{EventMeta, EventMetaList}

pub record CaptureMeta : Type 0 where
  pub totalbytes : ℕ
  pub auto_capture : Bool

pub record Captures : Type 0 where
  pub popup_id : ℤ
  pub events_meta : EventMetaList
  pub capture_set : SetStore ℤ
  pub capture_tick : SetStore ℤ
  pub capture_collapse : MapStore ℤ Bool
  pub capture_data : List (ℤ × List ℕ)
  pub capture_meta : List (ℤ × CaptureMeta)

abbrev pub mark : ℤ → Bool → EventMeta → Captures → Captures
mark eid value evt s = record s {
  events_meta = Maps.put s.events_meta eid (record evt { capture = value });
}

abbrev pub begin_capture : ℤ → Captures → Captures
begin_capture eid s = record s {
  capture_collapse = Maps.run (add_entry eid false) s.capture_collapse;
  capture_set = Sets.run (add_value eid) s.capture_set;
  capture_meta = Maps.put s.capture_meta eid (record { totalbytes = 0; auto_capture = true });
  capture_data = Maps.put s.capture_data eid [];
}

abbrev pub leave_set : ℤ → Captures → Captures
leave_set eid s = record s { capture_set = Sets.run (remove_value eid) s.capture_set }

abbrev pub drop_captured : ℤ → Captures → Captures
drop_captured eid s = record s {
  capture_meta = Maps.delete s.capture_meta eid;
  capture_data = Maps.delete s.capture_data eid;
  capture_collapse = Maps.run (remove_entry eid) s.capture_collapse;
}

-- On the event of the popup. That there is none is no case of the source: the popup is opened for an
-- event of the list.
abbrev pub set_capture : ℤ → Bool → Option EventMeta → Job Captures (Unit {0})
set_capture eid value none = throws type_error
set_capture eid true (some evt) = do
  modify (mark eid true evt)
  modify (begin_capture eid)
  launch (subscribes (some evt.name))
set_capture eid false (some evt) = do
  modify (mark eid false evt)
  modify (leave_set eid)
  launch (unsubscribes (some evt.name))
  modify (drop_captured eid)

-- `if(eid > 0)`
abbrev pub is_positive : ℤ → Bool
is_positive (pos zero) = false
is_positive (pos (suc n)) = true
is_positive (negsuc n) = false

unfoldable pub modify_capture : Bool → Job Captures (Unit {0})
modify_capture value = look (λ s.
    if is_positive s.popup_id
    then set_capture s.popup_id value (Maps.get s.events_meta s.popup_id)
    else done tt)

abbrev pub keep_frame : ℤ → List ℕ → Option CaptureMeta → Job Captures (Unit {0})
keep_frame eid frame none = throws type_error
keep_frame eid frame (some p) =
    if p.auto_capture
    then modify (λ s. record s {
      capture_data = Maps.put s.capture_data eid frame;
      capture_meta =
          Maps.put s.capture_meta eid (record p { totalbytes = p.totalbytes + length frame });
    })
    else done tt

-- The callback of a captured event.
unfoldable pub on_frame : ℤ → List ℕ → Job Captures (Unit {0})
on_frame eid frame = do
  modify (λ s. record s { capture_tick = Sets.run (add_value eid) s.capture_tick })
  look (λ s. keep_frame eid frame (Maps.get s.capture_meta eid))

unfoldable pub event_got_new_frame : ℤ → Captures → Bool × Captures
event_got_new_frame id s =
    if Sets.has s.capture_tick.values id
    then (true, record s { capture_tick = Sets.run (remove_value id) s.capture_tick })
    else (false, s)

-- What changes the captures.
pub data CaptureAction : Type 0 where
  switches : Bool → CaptureAction
  frames : ℤ → List ℕ → CaptureAction

unfoldable pub capture : CaptureAction → Job Captures (Unit {0})
unfolding modify_capture on_frame
capture (switches value) = modify_capture value
capture (frames eid frame) = on_frame eid frame
