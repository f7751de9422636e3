-- ===== src/Session/AppData.antt =====
-- The application's data (session.cpp): `send` parks it until the session is connected, `send_on_strand` puts it on
-- the nominated path, `flush_pending_app_data` sends what is parked.
pub mod Parked
mod Tests
use link_ice.Prelude.{
  ℕ, zero, suc, ◌+◌, ◌-◌, ◌≤◌, ◌≡◌, refl, sym, ap, ◌∙◌, arith, ◌&&◌, not, Bool, true, false,
  if◌then◌else◌, leb, ◌==◌, List, [], ◌∷◌, ◌++◌, append_assoc, drop, drop-add, length, length-drop,
  length-append, Bytes, Bool-cases, inl, inr,
}
use link_ice.Candidate.{udp, transport_is_tcp}
use link_ice.Reorder.{send_framed}
use link_ice.Session.{
  IceConfig, Outside, Nomination, Session, send_udp, send_tcp, send_indication, emit,
}
use link_ice.Session.Tick.{is_connected}
use link_ice.Session.Consent.{frame_tcp_stun}

abbrev pub pending_app_data_max_frames : ℕ
pending_app_data_max_frames = 64

-- The session with the members that sending uses.
pub record Sender : Type 0 where
  pub session : Session
  pub send_data_seq : ℕ
  pub pending_app_data : List Bytes

module _ (cfg : IceConfig) (out : Outside) where
  -- What goes out on the nominated path; a path without a connection gets one first.
  unfoldable pub send_direct : Bytes → Session → Session
  send_direct payload s =
      let n = s.nominated in
      let cid = if n.cid == 0 then out.cid_to false udp n.ip n.port else n.cid in
      let t = record s { nominated = record n { cid = cid } } in
      if cid == 0
      then s
      else if transport_is_tcp n.transport
      then (if out.carrier_tcp then emit (send_tcp cid (frame_tcp_stun payload)) t else t)
      else if out.carrier
      then emit (send_udp cid payload) t
      else t

  unfoldable pub send_on_strand : Bytes → Sender → Sender
  send_on_strand buf t =
      let n = t.session.nominated in
      let add_seqno = cfg.ordered_delivery && not (transport_is_tcp n.transport) in
      let framed = send_framed t.send_data_seq buf in
      let payload = if add_seqno then framed.0 else buf in
      record t {
        send_data_seq = if add_seqno then framed.1 else t.send_data_seq;
        session =
            if n.relay && out.turn
            then emit (send_indication n.ip n.port payload) t.session
            else send_direct payload t.session;
      }

  -- A full queue loses its oldest frame.
  unfoldable pub park : Bytes → List Bytes → List Bytes
  park buf q = (if leb pending_app_data_max_frames (length q) then drop 1 q else q) ++ (buf ∷ [])

  -- What `send` posts to the strand.
  unfoldable pub send : Bytes → Sender → Sender
  send buf t =
      if is_connected t.session.state
      then send_on_strand buf t
      else record t { pending_app_data = park buf t.pending_app_data }

  unfoldable pub send_each : List Bytes → Sender → Sender
  send_each [] t = t
  send_each (b ∷ bs) t = send_each bs (send b t)

  unfoldable pub flush : List Bytes → Sender → Sender
  flush [] t = t
  flush (b ∷ bs) t = flush bs (send_on_strand b t)

  unfoldable pub flush_pending_app_data : Sender → Sender
  flush_pending_app_data t = flush t.pending_app_data (record t { pending_app_data = [] })
