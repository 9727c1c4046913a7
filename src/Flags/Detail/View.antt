-- ===== src/Flags/Detail/View.antt =====
-- What frontend/app/flags/[id]/page.tsx draws around its form. `local_time` is
-- `new Date(…).toLocaleString()`; whether a change is under way is the query library's to say.
use feature_flag_system.Prelude.{
  ◌≡◌, refl, ℕ, Text, codes, Bool, Option, none, some, is_empty, if◌then◌else◌,
}
use feature_flag_system.Types.{Flag}
use feature_flag_system.Flags.List.{status_badge}
use feature_flag_system.Flags.Detail.{
  DetailPage, skeleton, not_found, editor, render_page, handle_delete, delete_failed,
}

-- The head of the page, with the dialog that asks before a deletion.
pub record Heading : Type 0 where
  pub key : Text
  pub badge : Bool × Text
  pub version : ℕ
  pub description : Option Text
  pub delete_label : Text
  pub is_delete_disabled : Bool

unfoldable pub heading : Bool → Flag → Heading
unfolding status_badge
heading is_deleting f = record {
  key = f.key;
  badge = status_badge f.enabled;
  version = f.version;
  description = if is_empty f.description then none else some f.description;
  delete_label = if is_deleting then codes "Deleting…" else codes "Delete flag";
  is_delete_disabled = is_deleting;
}

pub record Metadata : Type 0 where
  pub version : ℕ
  pub created : Text
  pub updated : Text

unfoldable pub metadata : (Text → Text) → Flag → Metadata
metadata local_time f = record {
  version = f.version;
  created = local_time f.created_at;
  updated = local_time f.updated_at;
}

pub data DetailView : Type 0 where
  loading missing : DetailView
  shown : (heading : Heading) (is_saving : Bool) (metadata : Metadata) → DetailView

unfoldable pub detail_view :
    (Text → Text) → (is_saving is_deleting : Bool) → DetailPage → DetailView
unfolding render_page heading metadata
detail_view local_time is_saving is_deleting page = elim (render_page page) [
  | skeleton ↦ loading
  | not_found ↦ missing
  | editor f ↦ shown (heading is_deleting f) is_saving (metadata local_time f)
]

-- A deletion that is asked for, and one that the server refuses, leave the flag on the page: what
-- is drawn changes in the button only.
pub detail_view-delete_failed :
    (local_time : Text → Text) (message : Text) (is_saving is_deleting : Bool) (page : DetailPage)
    → (detail_view local_time is_saving is_deleting (handle_delete page)
        ≡ detail_view local_time is_saving is_deleting page)
      × (detail_view local_time is_saving is_deleting (delete_failed message (handle_delete page))
          ≡ detail_view local_time is_saving is_deleting page)
unfolding detail_view render_page handle_delete delete_failed
detail_view-delete_failed local_time message is_saving is_deleting page = (refl, refl)
