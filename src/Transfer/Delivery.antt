-- ===== src/Transfer/Delivery.antt =====
-- The transfer of one chunk, from its start: what arrives is the chunk.
use project_2_congest.Base.{
  ℕ, zero, suc, ◌*◌, ◌≤◌, ◌≡◌, refl, sym, ap, ◌∙◌, List, [], ◌∷◌, length, take, arith,
}
use project_2_congest.Clock.{Timeval}
use project_2_congest.Packet.{Sockaddr, chunk_data_num, chunk_data_size}
use project_2_congest.Job.{Chunk}
use project_2_congest.Connection.{ProviderConnection}
use project_2_congest.Connection.Receiver.{bytes_of, complete_write}
use project_2_congest.Control.{LogEntry, init_provider_connection}
use project_2_congest.Transfer.Invariant.{SystemInv, Reach-SystemInv}
use project_2_congest.Transfer.{System, Reach}

-- A provider connection that was just opened, and a chunk of which nothing was received.
unfoldable pub opened : Timeval → ProviderConnection → List LogEntry → Chunk → System
opened now fresh log c = record {
  sender = record {
    conn = record (init_provider_connection now fresh) {
      last_packet_acked = 0;
      last_packet_sent = 0;
    };
    log = log;
  };
  receiver = record c { received_seq_num = 0; received_byte_num = 0 };
  data_net = [];
  ack_net = [];
}

pub opened-SystemInv :
    (blank chunk_data : List ℕ) (now : Timeval) (fresh : ProviderConnection) (log : List LogEntry)
    (c : Chunk)
    → SystemInv blank chunk_data (opened now fresh log c)
unfolding opened init_provider_connection
opened-SystemInv blank chunk_data now fresh log c = record {
  sender_inv = ground arith;
  received = record {
    seq_le = omega arith;
    byte_num = omega arith;
    written = omega arith;
    prefix = refl;
  };
  acked_le = omega arith;
  data_ok = λ d m. elim m [ ];
  acks_ok = λ d m. elim m [ ];
}

take-length : (n : ℕ) (xs : List ℕ) → length xs ≡ n → take n xs ≡ xs
take-length zero [] e = refl
take-length zero (x ∷ xs) e = absurd (omega arith)
take-length (suc n) [] e = absurd (omega arith)
take-length (suc n) (x ∷ xs) e = ap (◌∷◌ x) (take-length n xs (omega arith))

module _ (blank chunk_data : List ℕ) (size : length chunk_data ≡ chunk_data_size)
    (start_time now : Timeval) (from : Sockaddr) (fresh : ProviderConnection) (log : List LogEntry)
    (c : Chunk) (t : System)
    (r : Reach blank chunk_data start_time from (opened now fresh log c) t) where
  inv : SystemInv blank chunk_data t
  inv =
      Reach-SystemInv blank chunk_data size start_time from
        (opened-SystemInv blank chunk_data now fresh log c) r

  -- In every state that a transfer of a chunk of 512 KB reaches, over a network that loses, repeats
  -- and reorders packets, the bytes received are the first bytes of the chunk, in packets of 1024, and the
  -- sender takes no packet for acknowledged that was not received.
  pub received_prefix :
      (take t.receiver.received_byte_num (bytes_of t.receiver.chunk_data)
        ≡ take t.receiver.received_byte_num chunk_data)
      × (t.receiver.received_byte_num ≡ t.receiver.received_seq_num * 1024)
      × (t.sender.conn.last_packet_acked ≤ t.receiver.received_seq_num)
  received_prefix = (inv.received.prefix, inv.received.byte_num, inv.acked_le)

  -- In every state that a transfer of a chunk of 512 KB reaches and in which the last packet is
  -- acknowledged, the receiver has the whole chunk, and the bytes that it writes to the output file
  -- are those of the chunk.
  pub finished_delivers :
      (output_file_name : List ℕ)
      → t.sender.conn.last_packet_acked ≡ chunk_data_num
      → (t.receiver.received_byte_num ≡ chunk_data_size)
        × ((complete_write output_file_name t.receiver).bytes ≡ chunk_data)
  finished_delivers output_file_name e =
      let n : t.receiver.received_byte_num ≡ chunk_data_size =
        omega (arith, inv.received.seq_le, inv.received.byte_num, inv.acked_le) in
      (
        n,
        ap (λ (k : ℕ). take k (bytes_of t.receiver.chunk_data)) (sym n)
            ∙ inv.received.prefix
            ∙ ap (λ (k : ℕ). take k chunk_data) n
            ∙ take-length chunk_data_size chunk_data size,
      )
