-- ===== src/Session/AppData/Tests.antt =====
-- A run of the queue of application data.
use link_ice.Prelude.{◌≡◌, refl, arith, [], ◌∷◌}
use link_ice.Session.{connected}
use link_ice.Session.Samples.{cfg, out, session}
use link_ice.Session.AppData.{Sender, send_each, flush_pending_app_data}
use link_ice.Session.AppData.Parked.{newest, parked_then_sent}

abbrev sender : Sender
sender = record { session = session; send_data_seq = 7; pending_app_data = [] }

parked_then_sent_example :
    flush_pending_app_data cfg out (record (send_each cfg out ((1 ∷ []) ∷ (2 ∷ []) ∷ []) sender) {
      session = record session { state = connected };
    })
    ≡ send_each cfg out
        (newest 64 ((1 ∷ []) ∷ (2 ∷ []) ∷ []))
        (record sender { session = record session { state = connected }; pending_app_data = [] })
parked_then_sent_example =
    parked_then_sent cfg out ((1 ∷ []) ∷ (2 ∷ []) ∷ []) sender
      (record session { state = connected }) refl refl (omega arith)
