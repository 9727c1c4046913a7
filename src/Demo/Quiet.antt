-- ===== src/Demo/Quiet.antt =====
-- Callbacks that tell of no update, and operations of frontend/sdk/FeatureFlagClient.ts that make
-- no others.
use feature_flag_system.Prelude.{
  ◌∙◌, All, if◌then◌else◌, ℕ, ◌∷◌, [], Bool, true, false, List, Option, ◌≡◌, refl, arith,
}
use feature_flag_system.Sdk.Client.{
  ConnectionStatus, same_status, opened, closed, timer_set, timer_cleared, Client, Effect,
  told_status, told_update, set_status, call_all,
}
use feature_flag_system.Sdk.Reconcile.{Pending}
use feature_flag_system.Demo.{DemoPage, hear, hear_all, operate, operate_pending}
use feature_flag_system.Demo.Shown.{hear_all-client}

-- Callbacks without an update leave the page's copies alone.
abbrev pub IsQuiet : Effect → Type 0
IsQuiet (told_update l m) = ⊥
IsQuiet (told_status l s) = Unit
IsQuiet (opened es) = Unit
IsQuiet (closed es) = Unit
IsQuiet timer_set = Unit
IsQuiet timer_cleared = Unit

-- The page's copies are the old ones.
pub record IsUnheard (p r : DemoPage) : Type 0 where
  pub same_flags : r.all_flags ≡ p.all_flags
  pub same_version : r.client_version ≡ p.client_version

pub IsUnheard-trans : (p q r : DemoPage) → IsUnheard p q → IsUnheard q r → IsUnheard p r
IsUnheard-trans p q r a b = record {
  same_flags = b.same_flags ∙ a.same_flags;
  same_version = b.same_version ∙ a.same_version;
}

hear-IsUnheard : (v : ℕ) (e : Effect) (p : DemoPage) → IsQuiet e → IsUnheard p (hear v e p)
unfolding hear
hear-IsUnheard v (told_update l m) p h = absurd h
hear-IsUnheard v (told_status l s) p h = record { same_flags = refl; same_version = refl }
hear-IsUnheard v (opened es) p h = record { same_flags = refl; same_version = refl }
hear-IsUnheard v (closed es) p h = record { same_flags = refl; same_version = refl }
hear-IsUnheard v timer_set p h = record { same_flags = refl; same_version = refl }
hear-IsUnheard v timer_cleared p h = record { same_flags = refl; same_version = refl }

hear_all-IsUnheard :
    (v : ℕ) (es : List Effect) (p : DemoPage) → All IsQuiet es → IsUnheard p (hear_all v es p)
unfolding hear_all
hear_all-IsUnheard v [] p h = record { same_flags = refl; same_version = refl }
hear_all-IsUnheard v (e ∷ es) p h =
    IsUnheard-trans p (hear_all v es p) (hear v e (hear_all v es p)) (hear_all-IsUnheard v es p h.1)
      (hear-IsUnheard v e (hear_all v es p) h.0)

call_status-IsQuiet :
    (s : ConnectionStatus) (ls : List ℕ) (es : List Effect)
    → All IsQuiet es
    → All IsQuiet (call_all (λ l. told_status l s) ls es)
unfolding call_all
call_status-IsQuiet s [] es h = h
call_status-IsQuiet s (l ∷ ls) es h = call_status-IsQuiet s ls (told_status l s ∷ es) (tt, h)

-- A change of status from a client whose callbacks have all been made.
pub record IsQuietStep (s : ConnectionStatus) (c d : Client) : Type 0 where
  pub quiet : All IsQuiet d.effects
  pub flags : d.flags ≡ c.flags
  pub version : d.config_version ≡ c.config_version
  pub status : d.status ≡ s
  pub reconciling : d.is_reconciling ≡ c.is_reconciling

same_status-eq : (a b : ConnectionStatus) → same_status a b ≡ true → a ≡ b
same_status-eq a b h = ground arith

pub set_status-IsQuietStep :
    (s : ConnectionStatus) (c : Client) → c.effects ≡ [] → IsQuietStep s c (set_status s c)
unfolding set_status
set_status-IsQuietStep s c none_yet = go (same_status c.status s) refl
  where
    told : Client
    told = record c {
      status = s;
      effects = call_all (λ l. told_status l s) c.status_listeners c.effects;
    }

    go : (b : Bool) → same_status c.status s ≡ b → IsQuietStep s c (if b then c else told)
    go true same = record {
      quiet = rw none_yet tt;
      flags = refl;
      version = refl;
      status = same_status-eq c.status s same;
      reconciling = refl;
    }
    go false other = record {
      quiet = call_status-IsQuiet s c.status_listeners c.effects (rw none_yet tt);
      flags = refl;
      version = refl;
      status = refl;
      reconciling = refl;
    }

abbrev pub at_rest : DemoPage → Client
at_rest p = record p.client { effects = [] }

pub operate_pending-IsUnheard :
    (op : Client → Client × Option Pending) (p : DemoPage)
    → All IsQuiet (op (at_rest p)).0.effects
    → IsUnheard p (operate_pending op p) × ((operate_pending op p).client ≡ (op (at_rest p)).0)
unfolding operate_pending operate
operate_pending-IsUnheard op p h =
    let c = (op (at_rest p)).0 in
    let u = hear_all-IsUnheard c.config_version c.effects (record p { client = c }) h in
    (
      record { same_flags = u.same_flags; same_version = u.same_version },
      hear_all-client c.config_version c.effects (record p { client = c }),
    )
