-- ===== src/Connection/Receiver/Content.antt =====
-- connection.c: the data of a chunk that is received, and how it is written to the output file.
use project_2_congest.Base.{
  ℕ, ◌+◌, ◌*◌, Bool, not, Option, none, some, List, [], ◌∷◌, take, ◌==◌, if◌then◌else◌,
}
use project_2_congest.Base.Int.{pos, pos_part, ltb_ℤ, ◌-ℤ◌}
use project_2_congest.Base.Memory.{memcpy, same_bytes}
use project_2_congest.Base.Word.{signed16, signed32}
use project_2_congest.Packet.{Packet, chunk_data_size, max_payload_length}
use project_2_congest.Job.{Chunk, ChunkStatus, not_found, finished}

abbrev pub bytes_of : Option (List ℕ) → List ℕ
bytes_of none = []
bytes_of (some bytes) = bytes

-- The length of the data, as the header says, cut to what a payload can have.
unfoldable pub data_size : Packet → ℕ
data_size p =
    let n = signed16 p.header.packet_length -ℤ signed16 p.header.header_length in
    if ltb_ℤ n (pos 0)
    then 0
    else if ltb_ℤ (pos max_payload_length) n
    then max_payload_length
    else pos_part n

-- The data goes to the end of what was received of the chunk. `memcpy` does not look at the end of
-- the block of CHUNK_DATA_SIZE bytes, nor does the model.
unfoldable pub save_data_packet : Packet → Chunk → Chunk
save_data_packet p c = record c {
  chunk_data =
      some (memcpy (bytes_of c.chunk_data) c.received_byte_num (take (data_size p) p.payload));
  received_seq_num = pos_part (signed32 p.header.seq_number);
  received_byte_num = c.received_byte_num + data_size p;
}

-- A call of `fwrite`: the file, the offset that `fseek` went to, and the bytes.
pub record Write : Type 0 where
  pub file_name : List ℕ
  pub offset : ℕ
  pub bytes : List ℕ

-- What the machine gives: SHA-1, whether the output file opens, and how many bytes `fwrite` says
-- that it wrote.
pub record Platform : Type 0 where
  pub shahash : List ℕ → List ℕ
  pub opens : List ℕ → Bool
  pub fwrite : Write → ℕ

-- A chunk, and the writes to the output file.
pub record Saved : Type 0 where
  pub chunk : Chunk
  pub writes : List Write

abbrev release_data : Chunk → ChunkStatus → Chunk
release_data c status = record c {
  status = status;
  chunk_data = none;
  received_seq_num = 0;
  received_byte_num = 0;
}

-- `save_chunk`, on the first chunk of the connection.
abbrev pub complete_write : List ℕ → Chunk → Write
complete_write output_file_name c = record {
  file_name = output_file_name;
  offset = c.id * chunk_data_size;
  bytes = take chunk_data_size (bytes_of c.chunk_data);
}

unfoldable pub save_complete : Platform → List ℕ → Chunk → Saved
save_complete m output_file_name c =
    let w = complete_write output_file_name c in
    if not (same_bytes (m.shahash w.bytes) c.hash_binary)
    then record { chunk = release_data c not_found; writes = [] }
    else if not (m.opens output_file_name)
    then record { chunk = release_data c not_found; writes = [] }
    else record {
      chunk = release_data c (if m.fwrite w == chunk_data_size then finished else not_found);
      writes = w ∷ [];
    }

unfoldable pub save_chunk : Platform → List ℕ → Chunk → Saved
unfolding save_complete
save_chunk m output_file_name c =
    if c.received_byte_num == chunk_data_size
    then save_complete m output_file_name c
    else record { chunk = c; writes = [] }
