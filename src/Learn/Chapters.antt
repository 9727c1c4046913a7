-- ===== src/Learn/Chapters.antt =====
-- frontend/app/learn/page.tsx: the chapters, and the card of each.
use feature_flag_system.Prelude.{
  ℕ, ◌∷◌, [], ◌++◌, Text, codes, List, Option, none, some, get, map, decimal, ltb, if◌then◌else◌,
}
use feature_flag_system.Learn.Entries.{GlossaryEntry}
use feature_flag_system.Learn.Glossary.{glossary_by_id, glossary_href}

pub record Chapter : Type 0 where
  pub n : ℕ
  pub title : Text
  pub line : Text
  pub term_id : Option Text
  pub href : Text
  pub see_label : Text

abbrev a_flag : Chapter
a_flag = record {
  n = 1;
  title = codes "What a feature flag is";
  line =
      codes "A switch for your app you can flip without shipping new code — turn a "
      ++ codes "feature on for everyone, no one, or just some people.";
  term_id = none;
  href = codes "/";
  see_label = codes "Flip one on the Overview";
}

abbrev rollouts : Chapter
rollouts = record {
  n = 2;
  title = codes "Percentage rollouts & determinism";
  line =
      codes "Turn a feature on for a fixed share of users. It isn't random per request: "
      ++ codes "each user gets a stable dice roll, so the same person always lands the same "
      ++ codes "side.";
  term_id = some (codes "rollout");
  href = codes "/demo";
  see_label = codes "Drag the rollout on the Demo";
}

abbrev targeting : Chapter
targeting = record {
  n = 3;
  title = codes "Targeting";
  line =
      codes "An always-on allow-list of specific users, checked before the percentage — "
      ++ codes "so your beta testers or your own account see a feature immediately.";
  term_id = some (codes "targeting");
  href = codes "/demo";
  see_label = codes "Check “Why ON/OFF?”";
}

abbrev local_evaluation : Chapter
local_evaluation = record {
  n = 4;
  title = codes "Local evaluation";
  line =
      codes "The SDK decides on the device with identical math and zero network calls — "
      ++ codes "that's why it's instant and keeps working offline.";
  term_id = some (codes "local-evaluation");
  href = codes "/demo";
  see_label = codes "Switch users on the Demo";
}

abbrev real_time : Chapter
real_time = record {
  n = 5;
  title = codes "Real-time updates (SSE)";
  line =
      codes "Changes are pushed to every client the instant they happen over a live "
      ++ codes "stream — a radio you tune into, not a number you keep re-dialing.";
  term_id = some (codes "sse");
  href = codes "/cluster";
  see_label = codes "Watch the live feed";
}

abbrev convergence : Chapter
convergence = record {
  n = 6;
  title = codes "Many servers & convergence";
  line =
      codes "Flags run on three backends at once. Right after a change they can briefly "
      ++ codes "differ, then all agree — that moment is convergence.";
  term_id = some (codes "convergence");
  href = codes "/cluster";
  see_label = codes "See it converge";
}

abbrev versioning : Chapter
versioning = record {
  n = 7;
  title = codes "Versioning & safe edits";
  line =
      codes "Every change bumps a version and is recorded durably, so two people editing "
      ++ codes "at once never silently clobber each other.";
  term_id = some (codes "versioning");
  href = codes "/flags";
  see_label = codes "Open a flag's history";
}

abbrev recovery : Chapter
recovery = record {
  n = 8;
  title = codes "Failure & recovery";
  line =
      codes "Lose the messenger or a server and writes still work — everyone holds "
      ++ codes "last-known-good and quietly catches up when it returns.";
  term_id = some (codes "reconcile");
  href = codes "/resilience";
  see_label = codes "Watch it recover";
}

-- CHAPTERS
abbrev pub chapters : List Chapter
chapters =
    a_flag ∷ rollouts ∷ targeting ∷ local_evaluation ∷ real_time ∷ convergence ∷ versioning
    ∷ recovery ∷ []

-- ChapterCard: the number with two digits, the analogy and the link to the definition of a known
-- term, and the link to the screen.
pub record ChapterCard : Type 0 where
  pub number : Text
  pub title : Text
  pub line : Text
  pub like : Option Text
  pub href : Text
  pub see_label : Text
  pub definition_href : Option Text

-- `String(n).padStart(2, "0")`
abbrev pub padded : ℕ → Text
padded n = if ltb n 10 then codes "0" ++ decimal n else decimal n

-- `c.termId ? GLOSSARY_BY_ID[c.termId] : undefined`; no identifier is empty.
abbrev chapter_entry : Option Text → Option GlossaryEntry
chapter_entry none = none
chapter_entry (some id) = get id glossary_by_id

abbrev definition_link : Option Text → Option GlossaryEntry → Option Text
definition_link none entry = none
definition_link (some id) none = none
definition_link (some id) (some e) = some (glossary_href id)

unfoldable pub chapter_card : Chapter → ChapterCard
unfolding glossary_by_id
chapter_card c =
    let entry = chapter_entry c.term_id in
    record {
      number = padded c.n;
      title = c.title;
      line = c.line;
      like = elim entry [ none ↦ none | some e ↦ some e.analogy ];
      href = c.href;
      see_label = c.see_label;
      definition_href = definition_link c.term_id entry;
    }

unfoldable pub learn_page : List ChapterCard
unfolding chapter_card
learn_page = map chapter_card chapters
