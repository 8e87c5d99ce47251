-- ===== src/Peer/Data.antt =====
-- peer.c: what `process_inbound_udp` makes of a DATA packet, by its number.
use project_2_congest.Base.{ℕ, ◌+◌, Bool, true, false, List, [], ◌∷◌, if◌then◌else◌}
use project_2_congest.Base.Int.{ℤ, pos, ltb_ℤ}
use project_2_congest.Base.Word.{signed32}
use project_2_congest.Packet.{Packet}
use project_2_congest.Job.{Chunk, malloc_ack_packet}
use project_2_congest.Connection.Receiver.{save_data_packet}

-- `ignored`: an illegal number, or an old packet.
pub data Verdict : Type 0 where
  ignored early expected : Verdict

unfoldable pub data_verdict : ℕ → ℤ → Verdict
data_verdict existing_seq_num packet_seq_num =
    if ltb_ℤ packet_seq_num (pos 0)
    then ignored
    else if ltb_ℤ packet_seq_num (pos (existing_seq_num + 1))
    then ignored
    else if ltb_ℤ (pos (existing_seq_num + 1)) packet_seq_num
    then early
    else expected

-- The chunk that is downloaded, the acknowledgment that is sent, and whether data was taken.
pub record Reception : Type 0 where
  pub chunk : Chunk
  pub reply : List Packet
  pub took : Bool

unfoldable pub receive_data : List ℕ → Packet → Chunk → Reception
unfolding data_verdict
receive_data blank p c = elim (data_verdict c.received_seq_num (signed32 p.header.seq_number)) [
  | ignored ↦ record { chunk = c; reply = []; took = false }
  | early ↦ record {
    chunk = c;
    reply = malloc_ack_packet blank c.received_seq_num ∷ [];
    took = false;
  }
  | expected ↦ record {
    chunk = save_data_packet p c;
    reply = malloc_ack_packet blank (1 + c.received_seq_num) ∷ [];
    took = true;
  }
]
