-- ===== src/Drives/Process.antt =====
-- web/src/pages/Drives.tsx: the processing of the drives and the upload of their data.
use sentry_usb.Base.{ℕ, ◌+◌, Bool, true, false, Option, none, some, String, if◌then◌else◌, ◌==◌}
use sentry_usb.Base.Text.{concat, is_empty}

pub data Mode : Type 0 where
  fresh again : Mode

-- `process_poll` and `import_poll` are true while their intervals are set; `loads` counts the times
-- that the drives are loaded again.
pub record Process : Type 0 where
  pub processing : Bool
  pub process_msg : String
  pub show_process_menu : Bool
  pub process_poll : Bool
  pub importing : Bool
  pub import_msg : String
  pub import_poll : Bool
  pub loads : ℕ

abbrev mode_label : Mode → String
mode_label fresh = "Processing new drives"
mode_label again = "Reprocessing all drives"

-- `triggerProcess`: its start, and what its request comes to
pub data Started : Type 0 where
  accepted failed : Started
  refused : String → Started

unfoldable pub process_begin : Mode → Process → Process
unfolding concat
process_begin mode s = record s {
  processing = true;
  show_process_menu = false;
  process_msg = concat (mode_label mode) "...";
}

unfoldable pub process_reply : Mode → Started → Process → Process
unfolding concat
process_reply mode accepted s = record s {
  process_msg = concat (mode_label mode) "... check back shortly";
  process_poll = true;
}
process_reply mode (refused e) s = record s { process_msg = concat "Error: " e; processing = false }
process_reply mode failed s = record s {
  process_msg = "Failed to start processing";
  processing = false;
}

-- a reply to the interval of three seconds: whether it still runs (`none`: the request failed)
unfoldable pub process_polled : Option Bool → Process → Process
process_polled none s = record s { process_poll = false; processing = false }
process_polled (some true) s = s
process_polled (some false) s = record s {
  process_poll = false;
  processing = false;
  process_msg = "";
  loads = s.loads + 1;
}

-- `handleUpload`: its start, and what its request comes to, with the text of the error
pub data Uploaded : Type 0 where
  taken : Uploaded
  rejected : Option String → String → Uploaded
  unreachable : String → Uploaded

unfoldable pub upload_begin : Process → Process
upload_begin s = record s { importing = true; import_msg = "Uploading…" }

abbrev or_text : Option String → String → String
or_text none text = text
or_text (some e) text = if is_empty e then text else e

-- A refusal has the text of the server, and the status as it is shown.
unfoldable pub upload_reply : Uploaded → Process → Process
unfolding concat
upload_reply taken s = record s { import_msg = "Processing import on device…"; import_poll = true }
upload_reply (rejected e status) s = record s {
  import_msg = or_text e (concat "Upload failed (" (concat status ")"));
  importing = false;
}
upload_reply (unreachable text) s = record s {
  import_msg = concat "Upload failed — " text;
  importing = false;
}

-- a reply to its interval: whether it still imports, and how many routes there are, as a text
unfoldable pub import_polled : Option (Bool × (ℕ × String)) → Process → Process
unfolding concat
import_polled none s = s
import_polled (some r) s =
    let drives = if r.1.0 == 1 then " drive loaded" else " drives loaded" in
    if r.0 then s else record s {
      import_poll = false;
      importing = false;
      import_msg = concat "Import complete — " (concat r.1.1 drives);
      loads = s.loads + 1;
    }

-- the timer of the message
unfoldable pub clear_import_msg : Process → Process
clear_import_msg s = record s { import_msg = "" }
