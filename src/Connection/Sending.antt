-- ===== src/Connection/Sending.antt =====
-- connection.c: what `send_data_packet` does, on every branch.
use project_2_congest.Base.{ℕ, ◌+◌, ◌*◌, ◌≤◌, ◌<◌, ◌≡◌, List, arith}
use project_2_congest.Clock.{Timeval}
use project_2_congest.Packet.{Packet, chunk_data_num, chunk_data_size, data_packet_payload_size}
use project_2_congest.Connection.{ProviderConnection}
use project_2_congest.Connection.Provider.{
  Sending, sends, window_full, all_sent, send_data_packet, after_send, nth_data_packet,
  sender_after,
}
use project_2_congest.Control.Invariant.{Inv}

-- What one call did: the window was full; or every packet was sent; or the next packet was sent,
-- its data inside the chunk.
pub data Sent (blank chunk_data : List ℕ) (now : Timeval) (p : ProviderConnection)
    : Sending → Type 0 where
  full :
      p.last_packet_sent ≡ p.last_packet_acked + p.window_size
      → Sent blank chunk_data now p window_full
  complete : p.last_packet_sent ≡ chunk_data_num → Sent blank chunk_data now p all_sent
  next :
      {packet : Packet} {q : ProviderConnection}
      → p.last_packet_sent < p.last_packet_acked + p.window_size
      → p.last_packet_sent * data_packet_payload_size + data_packet_payload_size ≤ chunk_data_size
      → packet ≡ nth_data_packet blank chunk_data (p.last_packet_sent + 1)
      → q ≡ after_send now p packet
      → Sent blank chunk_data now p (sends packet q)

module _ (blank chunk_data : List ℕ) (now : Timeval) (p : ProviderConnection) (v : Inv p) where
  pub send_data_packet-Sent : Sent blank chunk_data now p (send_data_packet blank now chunk_data p)
  unfolding send_data_packet
  send_data_packet-Sent = grind (arith, full, complete, next)

  -- If a connection satisfies the invariant of the window, it does so after `send_data_packet`.
  pub send_data_packet-Inv : Inv (sender_after p (send_data_packet blank now chunk_data p))
  unfolding send_data_packet after_send
  send_data_packet-Inv = ground arith
