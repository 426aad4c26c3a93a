-- ===== src/Community/Wraps.antt =====
-- web/src/pages/CommunityWraps.tsx: the tab that shows the shared wraps.
use sentry_usb.Base.{
  ℕ, ◌+◌, ◌-◌, ◌/◌, Bool, true, false, Option, none, some, List, [], String, str_eq, if◌then◌else◌,
  min, max,
}
use sentry_usb.Base.Text.{trim, is_empty, truthy, concat}
use sentry_usb.Base.Exec.{Answer, answered, refused, unreachable, Done}

pub record Wrap : Type 0 where
  pub code : String
  pub name : String
  pub tesla_model : String

pub data ToastKind : Type 0 where
  success error : ToastKind

-- `passcode` is the one of the page above.
pub record Browse : Type 0 where
  pub wraps : List Wrap
  pub total : ℕ
  pub page : ℕ
  pub is_loading : Bool
  pub error_text : Option String
  pub search : String
  pub model : String
  pub sort : String
  pub selected_wrap : Option Wrap
  pub downloading : Option String
  pub toast : Option (String × ToastKind)
  pub editing_wrap : Option Wrap
  pub deleting_wrap : Option Wrap
  pub passcode : Option String

unfoldable pub mount : Option String → Browse
mount passcode = record {
  wraps = [];
  total = 0;
  page = 1;
  is_loading = true;
  error_text = none;
  search = "";
  model = "All";
  sort = "newest";
  selected_wrap = none;
  downloading = none;
  toast = none;
  editing_wrap = none;
  deleting_wrap = none;
  passcode = passcode;
}

-- the query of a request
pub record Query : Type 0 where
  pub page : ℕ
  pub limit : ℕ
  pub model : Option String
  pub search : Option String
  pub sort : Option String
  pub passcode : Option String

abbrev pub limit : ℕ
limit = 24

abbrev unless : Bool → String → Option String
unless b text = if b then none else some text

unfoldable pub query_of : Browse → Query
unfolding trim
query_of s = record {
  page = s.page;
  limit = limit;
  model = unless (str_eq s.model "All") s.model;
  search = unless (is_empty (trim s.search)) (trim s.search);
  sort = unless (str_eq s.sort "newest") s.sort;
  passcode = if truthy s.passcode then s.passcode else none;
}

-- `fetchWraps`: its start, and what its request comes to
unfoldable pub fetch_begin : Browse → Browse
fetch_begin s = record s { is_loading = true; error_text = none }

abbrev or_text : String → String → String
or_text text other = if is_empty text then other else text

unfoldable pub fetch_reply : Answer (List Wrap × ℕ) → Browse → Browse
fetch_reply (answered r) s = record s { wraps = r.0; total = r.1; is_loading = false }
fetch_reply (refused text) s = record s {
  error_text = some (or_text text "Failed to load wraps");
  is_loading = false;
}
fetch_reply (unreachable text) s = record s {
  error_text = some (or_text text "Failed to load wraps");
  is_loading = false;
}

-- The filters. Their effect goes back to the first page.
unfoldable pub set_search : String → Browse → Browse
set_search text s = if str_eq text s.search then s else record s { search = text; page = 1 }

unfoldable pub set_model : String → Browse → Browse
set_model model s = if str_eq model s.model then s else record s { model = model; page = 1 }

unfoldable pub set_sort : String → Browse → Browse
set_sort sort s = if str_eq sort s.sort then s else record s { sort = sort; page = 1 }

unfoldable pub total_pages : Browse → ℕ
total_pages s = (s.total + (limit - 1)) / limit

unfoldable pub previous_page : Browse → Browse
previous_page s = record s { page = max 1 (s.page - 1) }

unfoldable pub next_page : Browse → Browse
unfolding total_pages
next_page s = record s { page = min (total_pages s) (s.page + 1) }

unfoldable pub download_begin : Wrap → Browse → Browse
download_begin w s = record s { downloading = some w.code }

unfoldable pub download_reply : Wrap → Answer Done → Browse → Browse
download_reply w (answered d) s = record s {
  toast = some (concat "\"" (concat w.name "\" added to your Wraps folder!"), success);
  selected_wrap = none;
  downloading = none;
}
download_reply w (refused text) s = record s {
  toast = some (or_text text "Download failed", error);
  downloading = none;
}
download_reply w (unreachable text) s = record s {
  toast = some (or_text text "Download failed", error);
  downloading = none;
}

-- What the request of an admin comes to.
pub data AdminReply : Type 0 where
  accepted unauthorized : AdminReply
  failed : String → AdminReply

abbrev expired : Browse → Browse
expired s = record s {
  passcode = none;
  toast = some ("Passcode expired — admin mode deactivated", error);
}

-- `handleEdit` and `handleDelete`; nothing is asked without a passcode.
unfoldable pub handle_edit : AdminReply → Browse → Browse
unfolding fetch_begin
handle_edit r s =
    let done = elim r as (λ x. Browse) [
      | accepted ↦ fetch_begin (record s {
        toast = some ("Wrap updated", success);
        editing_wrap = none;
        selected_wrap = none;
      })
      | unauthorized ↦ record (expired s) { editing_wrap = none }
      | failed text ↦ record s { toast = some (or_text text "Edit failed", error) }
    ] in
    if truthy s.passcode then done else s

unfoldable pub handle_delete : AdminReply → Browse → Browse
unfolding fetch_begin
handle_delete r s =
    let done = elim r as (λ x. Browse) [
      | accepted ↦ fetch_begin (record s {
        toast = some ("Wrap deleted", success);
        deleting_wrap = none;
        selected_wrap = none;
      })
      | unauthorized ↦ record (expired s) { deleting_wrap = none }
      | failed text ↦ record s { toast = some (or_text text "Delete failed", error) }
    ] in
    if truthy s.passcode then done else s

unfoldable pub clear_toast : Browse → Browse
clear_toast s = record s { toast = none }

-- the buttons that choose a wrap, and close what is open for one
unfoldable pub select : Option Wrap → Browse → Browse
select w s = record s { selected_wrap = w }

unfoldable pub edit : Option Wrap → Browse → Browse
edit w s = record s { editing_wrap = w }

unfoldable pub delete : Option Wrap → Browse → Browse
delete w s = record s { deleting_wrap = w }
