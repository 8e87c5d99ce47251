-- ===== src/Transfer.antt =====
-- connection.c, control.c and peer.c together: one chunk goes from a provider connection of one
-- node to a receiver connection of another, over a network that loses, repeats and reorders.
pub mod Arrival
pub mod Receiving
pub mod Invariant
pub mod Delivery
pub mod Progress
pub mod Completion
pub mod Stall
pub mod Requests
use mathlib.Core.List.{Memᴰ}
use project_2_congest.Base.{ℕ, ◌≡◌, ◌≢◌, Option, some, none, List, [], ◌∷◌, ◌++◌, map}
use project_2_congest.Base.Word.{signed32}
use project_2_congest.Clock.{Timeval}
use project_2_congest.Packet.{
  Packet, Datagram, Target, to_sender, Sockaddr, send_packet, net_to_host_header, chunk_data_size,
}
use project_2_congest.Job.{Chunk}
use project_2_congest.Connection.Provider.{send_data_packet, sender_after, data_sent}
use project_2_congest.Control.{Logged, provider_control_by_ack, provider_control_by_timeout}
use project_2_congest.Peer.Data.{Reception, receive_data}
use project_2_congest.Transfer.Arrival.{arrive}

-- What was sent stays in the two lists, since the network may deliver it at any time and again; a
-- packet that is lost is one that no step delivers.
pub record System : Type 0 where
  pub sender : Logged
  pub receiver : Chunk
  pub data_net : List Datagram
  pub ack_net : List Datagram

module _ (blank chunk_data : List ℕ) (start_time : Timeval) (from : Sockaddr) where
  unfoldable pub send_step : Timeval → System → System
  send_step now s =
      let sending = send_data_packet blank now chunk_data s.sender.conn in
      record s {
        sender = record s.sender { conn = sender_after s.sender.conn sending };
        data_net = data_sent s.sender.conn sending ++ s.data_net;
      }

  abbrev pub replies : Reception → List Datagram
  replies r = map (λ p. send_packet p (to_sender from)) r.reply

  abbrev pub after_reception : System → Reception → System
  after_reception s r = record s { receiver = r.chunk; ack_net = replies r ++ s.ack_net }

  -- `stale` is what the receiver's buffer holds behind the packet.
  unfoldable pub data_step : Datagram → List ℕ → System → System
  data_step d stale s = after_reception s (receive_data blank (arrive d stale) s.receiver)

  unfoldable pub ack_step : Timeval → Datagram → List ℕ → System → System
  ack_step now d stale s = record s {
    sender =
        provider_control_by_ack start_time now s.sender
          (signed32 (arrive d stale).header.ack_number);
  }

  -- The receiver takes data until the chunk is complete.
  pub data Step (s : System) : System → Type 0 where
    send : (now : Timeval) → Step s (send_step now s)
    deliver_data :
        (d : Datagram) (stale : List ℕ)
        → Memᴰ d s.data_net
        → s.receiver.received_byte_num ≢ chunk_data_size
        → Step s (data_step d stale s)
    deliver_ack :
        (now : Timeval) (d : Datagram) (stale : List ℕ)
        → Memᴰ d s.ack_net
        → Step s (ack_step now d stale s)
    time_out :
        (now : Timeval) (c : Logged)
        → provider_control_by_timeout start_time now s.sender ≡ some c
        → Step s (record s { sender = c })

  pub data Reach (s : System) : System → Type 0 where
    here : Reach s s
    then : {t u : System} → Reach s t → Step t u → Reach s u
