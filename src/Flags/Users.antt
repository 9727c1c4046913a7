-- ===== src/Flags/Users.antt =====
-- frontend/components/flags/TargetedUsersInput.tsx: the list of targeted users and its input.
-- The parent holds the list and the component holds the text; `onChange` hands a list back.
use feature_flag_system.Prelude.{
  ◌≡◌, refl, ◌++◌, ◌∷◌, [], Text, Bool, true, false, not, ◌&&◌, ◌||◌, List, is_empty, trim,
  includes, text_eq, text_eq_iff, if◌then◌else◌, keep, arith,
}

pub record UsersInput : Type 0 where
  pub users : List Text
  pub input : Text

-- What the reader of the page can do to the input.
pub data UserAction : Type 0 where
  typed : Text → UserAction
  pressed_enter clicked_add : UserAction
  clicked_remove : Text → UserAction

unfoldable pub add_user : UsersInput → UsersInput
add_user s =
    let trimmed = trim s.input in
    if not (is_empty trimmed) && not (includes s.users trimmed)
    then record { users = s.users ++ trimmed ∷ []; input = [] }
    else s

unfoldable pub remove_user : Text → UsersInput → UsersInput
remove_user user s = record s { users = keep (λ u. not (text_eq u user)) s.users }

unfoldable pub act : UserAction → UsersInput → UsersInput
unfolding add_user remove_user
act (typed t) s = record s { input = t }
act pressed_enter s = add_user s
act clicked_add s = add_user s
act (clicked_remove user) s = remove_user user s

unfoldable pub act_all : List UserAction → UsersInput → UsersInput
act_all [] s = s
act_all (a ∷ actions) s = act_all actions (act a s)

-- No user twice, and no empty user.
abbrev pub is_clean : List Text → Bool
is_clean [] = true
is_clean (u ∷ us) = not (is_empty u) && not (includes us u) && is_clean us

pub includes-append :
    (us vs : List Text) (t : Text) → includes (us ++ vs) t ≡ (includes us t || includes vs t)
unfolding includes
includes-append [] vs t = refl
includes-append (u ∷ us) vs t = ground (arith, includes-append us vs t)

includes-keep :
    (us : List Text) (user t : Text)
    → includes (keep (λ u. not (text_eq u user)) us) t ≡ (includes us t && not (text_eq user t))
unfolding includes
includes-keep [] user t = refl
includes-keep (u ∷ us) user t =
    ground (arith, includes-keep us user t, text_eq_iff u user, text_eq_iff u t, text_eq_iff user t)

is_clean-append :
    (us : List Text) (t : Text)
    → is_clean us ≡ true
    → is_empty t ≡ false
    → includes us t ≡ false
    → is_clean (us ++ t ∷ []) ≡ true
unfolding includes
is_clean-append [] t h e n = ground arith
is_clean-append (u ∷ us) t h e n =
    ground
      (arith, is_clean-append us t, includes-append us (t ∷ []) u, text_eq_iff u t, text_eq_iff t u)

is_clean-keep :
    (us : List Text) (user : Text)
    → is_clean us ≡ true
    → is_clean (keep (λ u. not (text_eq u user)) us) ≡ true
is_clean-keep [] user h = refl
is_clean-keep (u ∷ us) user h = ground (arith, is_clean-keep us user, includes-keep us user u)

act-is_clean :
    (a : UserAction) (s : UsersInput) → is_clean s.users ≡ true → is_clean (act a s).users ≡ true
unfolding act add_user remove_user
act-is_clean (typed t) s h = h
act-is_clean pressed_enter s h = ground (arith, is_clean-append s.users (trim s.input))
act-is_clean clicked_add s h = ground (arith, is_clean-append s.users (trim s.input))
act-is_clean (clicked_remove user) s h = is_clean-keep s.users user h

-- Whatever is typed, added and removed, in any order, a list that starts with no user twice and
-- no empty user stays so.
pub act_all-is_clean :
    (actions : List UserAction) (s : UsersInput)
    → is_clean s.users ≡ true
    → is_clean (act_all actions s).users ≡ true
unfolding act_all
act_all-is_clean [] s h = h
act_all-is_clean (a ∷ actions) s h = act_all-is_clean actions (act a s) (act-is_clean a s h)

-- The users listed after one action: adding lists the trimmed text unless it is blank, removing
-- unlists the user that it names and no other, and typing changes nothing.
pub includes-act :
    (a : UserAction) (s : UsersInput) (t : Text)
    → includes (act a s).users t ≡ elim a [
      | typed _ ↦ includes s.users t
      | clicked_remove user ↦ includes s.users t && not (text_eq user t)
      | _ ↦ includes s.users t || (not (is_empty (trim s.input)) && text_eq (trim s.input) t)
    ]
unfolding act add_user remove_user includes
includes-act (typed x) s t = refl
includes-act pressed_enter s t =
    ground (arith, includes-append s.users (trim s.input ∷ []) t, text_eq_iff (trim s.input) t)
includes-act clicked_add s t =
    ground (arith, includes-append s.users (trim s.input ∷ []) t, text_eq_iff (trim s.input) t)
includes-act (clicked_remove user) s t = includes-keep s.users user t
