-- ===== src/Server/Broker/Tests.antt =====
-- A short run of the broker, and the theorems at it.
use feature_flag_system.Prelude.{
  ◌≡◌, refl, ◌∷◌, [], ◌++◌, codes, true, false, List, some, All, get_elem?, decimal,
}
use feature_flag_system.Server.{empty_store}
use feature_flag_system.Server.Service.{toggle, run_write, run_writes, published_by}
use feature_flag_system.Server.Tests.{history, id1, noon}
use feature_flag_system.Server.Broker.{
  SseEvent, Conn, streaming, connected, frame, Broker, new_broker, BrokerStep, connect, at,
  broadcast, shut_down, enter, take_one, beat, leave, run_steps, frame_text,
}
use feature_flag_system.Server.Broker.Sound.{IsSound, never_panics}
use feature_flag_system.Server.Broker.Order.{broadcasts, got}
use feature_flag_system.Server.Broker.Order.Runs.{hears_in_order}
use feature_flag_system.Server.Broker.Wire.{IsHeard, published-IsHeard}
use feature_flag_system.Server.Codec.{flag_text, read_flag, flag_read}

abbrev event_1 : SseEvent
event_1 = record { event = codes "flag_updated"; payload = codes "{}"; version = 1 }

event_1_text : frame_text (frame event_1) ≡ codes "id: 1\nevent: flag_updated\ndata: {}\n\n"
unfolding frame_text decimal
event_1_text = refl

abbrev opening : List BrokerStep
opening = connect ∷ at 0 (enter true) ∷ []

abbrev listening : Conn
listening = record {
  queue = [];
  is_closed = false;
  is_client = true;
  stage = streaming;
  output = connected ∷ [];
}

abbrev opened : Broker
opened = record { conns = listening ∷ []; is_done = false }

opening_run : run_steps opening new_broker ≡ some opened
unfolding run_steps
opening_run = refl

abbrev busy : List BrokerStep
busy = broadcast event_1 ∷ at 0 (take_one true) ∷ at 0 (beat false) ∷ shut_down ∷ at 0 leave ∷ []

never_panics_example : (b : Broker) × (run_steps busy new_broker ≡ some b) × IsSound b
never_panics_example = never_panics busy

hears_in_order_example :
    (b : Broker) × (run_steps busy opened ≡ some b)
    × ((c : Conn) × (get_elem? b.conns 0 ≡ some c)
        × ((missed : List SseEvent) × (got c ++ missed ≡ got listening ++ broadcasts busy)
            × (c.is_client ≡ true → missed ≡ [])))
hears_in_order_example = hears_in_order opening busy opened 0 listening opening_run refl refl

published-IsHeard_example :
    let s = run_writes history empty_store in
    All
      (IsHeard flag_text (λ k. k) read_flag some [] (run_write (toggle id1 noon) s).events)
      (published_by (toggle id1 noon) s)
published-IsHeard_example =
    published-IsHeard flag_text (λ k. k) read_flag some flag_read (λ k. refl) history
      (toggle id1 noon) []
