-- ===== src/Peer/Dispatch.antt =====
-- peer.c: what holds after every handler of a packet holds after any packet.
use project_2_congest.Base.{ℕ, Bool-cases, Option, inl, inr}
use project_2_congest.Base.Int.{ℤ, pos, ltb_ℤ, ◌==ℤ◌}
use project_2_congest.Clock.{Timeval}
use project_2_congest.Config.{search_bt_peer}
use project_2_congest.Packet.{
  Packet, Sockaddr, validate_packet, get_packet_type, net_to_host_header,
}
use project_2_congest.Peer.{
  Peer, Env, on_whohas, on_ihave, on_get, on_data, on_ack, dispatch, process_inbound_udp,
}

-- `P` holds of the state after each handler.
pub record Handles (e : Env) (now : Timeval) (from : Sockaddr) (s : Peer) (P : Peer → Type 0)
    : Type 0 where
  pub whohas : (packet : Packet) → P (on_whohas e now packet from s)
  pub ihave : (packet : Packet) (peer : Option ℕ) → P (on_ihave e now packet peer s)
  pub get : (packet : Packet) (peer : Option ℕ) → P (on_get e now packet peer s)
  pub arrived : (packet : Packet) (peer : Option ℕ) → P (on_data e now packet from peer s)
  pub ack : (packet : Packet) (peer : Option ℕ) → P (on_ack e now packet peer s)
  pub ignored : P s

module _ (e : Env) (now : Timeval) (from : Sockaddr) (s : Peer) (P : Peer → Type 0)
    (h : Handles e now from s P) where
  dispatch-keeps :
      (packet_type : ℤ) (packet : Packet) (peer : Option ℕ)
      → P (dispatch e now packet_type packet from peer s)
  unfolding dispatch
  dispatch-keeps packet_type packet peer = elim (Bool-cases (packet_type ==ℤ pos 0)) [
    | inl a ↦ rw (a, dispatch) (h.whohas packet)
    | inr a ↦ elim (Bool-cases (packet_type ==ℤ pos 1)) [
      | inl b ↦ rw (a, b, dispatch) (h.ihave packet peer)
      | inr b ↦ elim (Bool-cases (packet_type ==ℤ pos 2)) [
        | inl c ↦ rw (a, b, c, dispatch) (h.get packet peer)
        | inr c ↦ elim (Bool-cases (packet_type ==ℤ pos 3)) [
          | inl d ↦ rw (a, b, c, d, dispatch) (h.arrived packet peer)
          | inr d ↦ elim (Bool-cases (packet_type ==ℤ pos 4)) [
            | inl k ↦ rw (a, b, c, d, k, dispatch) (h.ack packet peer)
            | inr k ↦ rw (a, b, c, d, k, dispatch) h.ignored
          ]
        ]
      ]
    ]
  ]

  pub process_inbound_udp-keeps :
      (received : Packet) → P (process_inbound_udp e now received from s)
  unfolding process_inbound_udp
  process_inbound_udp-keeps received =
      let packet = record received { header = net_to_host_header received.header } in
      elim (Bool-cases (ltb_ℤ (validate_packet packet.header) (pos 0))) [
        | inl f ↦ rw (f, process_inbound_udp) h.ignored
        | inr f ↦
            rw (f, process_inbound_udp)
              (dispatch-keeps (get_packet_type packet.header) packet
                (search_bt_peer s.peers 0 from))
      ]
