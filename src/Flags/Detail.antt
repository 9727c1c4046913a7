-- ===== src/Flags/Detail.antt =====
-- frontend/app/flags/[id]/page.tsx with hooks/useFlags.ts and the update of lib/api.ts: the page
-- that edits one flag. The query cache is a parameter of the page's world: what it holds for the
-- flag is `flag`, and what the page asks of it, of the server, the router and the toasts goes to
-- the head of `effects`.
pub mod Saving
pub mod View
use feature_flag_system.Prelude.{
  ◌≡◌, refl, ◌∷◌, [], ℕ, Text, Bool, true, false, List, Option, none, some, codes, is_none,
  is_empty, if◌then◌else◌, arith, not, ◌&&◌,
}
use feature_flag_system.Types.{Flag, UpdateFlagInput}
use feature_flag_system.Flags.Form.{
  FlagForm, open_form, handle_submit, Submission, to_create, to_update,
}

-- A query: the list of flags, or one flag.
pub data QueryKey : Type 0 where
  all_flags : QueryKey
  one_flag : Text → QueryKey

pub data Effect : Type 0 where
  -- PUT with the version of the If-Match header, if there is one.
  sent_update : Text → UpdateFlagInput → Option ℕ → Effect
  sent_delete : Text → Effect
  invalidated invalidated_exact cancelled removed : QueryKey → Effect
  toasted toasted_error : Text → Effect
  pushed : Text → Effect

pub record DetailPage : Type 0 where
  pub id : Text
  pub deleting : Bool
  pub flag : Option Flag
  pub is_loading : Bool
  pub form : Option FlagForm
  pub effects : List Effect

unfoldable pub open_page : Text → DetailPage
open_page id = record {
  id = id;
  deleting = false;
  flag = none;
  is_loading = true;
  form = none;
  effects = [];
}

-- `enabled: !!id && enabled` of `useFlag(id, !deleting)`.
unfoldable pub query_enabled : DetailPage → Bool
query_enabled page = not (is_empty page.id) && not page.deleting

-- The query brings a flag, first or again. React keeps the state of a form that is mounted, and
-- mounts one when there is none.
unfoldable pub receive : Flag → DetailPage → DetailPage
receive f page =
    if query_enabled page
    then record page {
      flag = some f;
      is_loading = false;
      form = elim page.form [ none ↦ some (open_form (some f)) | some form ↦ some form ];
    }
    else page

-- The query fails; a flag that it brought before stays.
unfoldable pub receive_error : DetailPage → DetailPage
receive_error page = record page { is_loading = false }

-- The reader edits the form.
unfoldable pub edit : (FlagForm → FlagForm) → DetailPage → DetailPage
edit change page = elim page.form [
  | none ↦ page
  | some form ↦ record page { form = some (change form) }
]

abbrev version_of : Option Flag → Option ℕ
version_of none = none
version_of (some f) = some f.version

unfoldable pub handle_update : UpdateFlagInput → DetailPage → DetailPage
handle_update input page = record page {
  effects = sent_update page.id input (version_of page.flag) ∷ page.effects;
}

unfoldable pub submit : DetailPage → DetailPage
unfolding handle_update
submit page = elim page.form [
  | none ↦ page
  | some form ↦
      let result = handle_submit form in
      let page' = record page { form = some result.0 } in
      elim result.1 [
        | none ↦ page'
        | some (to_update input) ↦ handle_update input page'
        | some (to_create input) ↦ page'
      ]
]

-- The answer to an update. `onSuccess` of the hook runs before that of the page.
unfoldable pub update_succeeded : DetailPage → DetailPage
update_succeeded page = record page {
  effects = toasted (codes "Flag updated") ∷ invalidated all_flags ∷ page.effects;
}

unfoldable pub update_failed : Text → DetailPage → DetailPage
update_failed message page = record page {
  effects = invalidated (one_flag page.id) ∷ toasted_error message ∷ page.effects;
}

unfoldable pub handle_delete : DetailPage → DetailPage
handle_delete page = record page {
  deleting = true;
  effects = sent_delete page.id ∷ cancelled (one_flag page.id) ∷ page.effects;
}

unfoldable pub delete_succeeded : DetailPage → DetailPage
delete_succeeded page = record page {
  effects =
      pushed (codes "/flags")
      ∷ removed (one_flag page.id)
      ∷ toasted (codes "Flag deleted")
      ∷ invalidated_exact all_flags
      ∷ page.effects;
}

unfoldable pub delete_failed : Text → DetailPage → DetailPage
delete_failed message page = record page {
  deleting = false;
  effects = toasted_error message ∷ page.effects;
}

-- Which of its three shapes the page renders.
pub data Shape : Type 0 where
  skeleton not_found : Shape
  editor : Flag → Shape

unfoldable pub render_page : DetailPage → Shape
render_page page =
    if page.is_loading then skeleton else elim page.flag [ none ↦ not_found | some f ↦ editor f ]
