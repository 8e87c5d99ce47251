-- ===== src/Connection/Saving.antt =====
-- connection.c: what `save_chunk` does to the first chunk of a connection, on every branch.
use project_2_congest.Base.{ℕ, ◌≡◌, ◌≢◌, true, none, List, [], ◌∷◌, arith}
use project_2_congest.Base.Memory.{same_bytes}
use project_2_congest.Packet.{chunk_data_size}
use project_2_congest.Job.{Chunk, finished, not_found}
use project_2_congest.Connection.Receiver.{Platform, Saved, complete_write, save_chunk}

-- The data is that of the hash, and all of it could be written.
pub record IsStored (m : Platform) (output_file_name : List ℕ) (c : Chunk) : Type 0 where
  pub verified :
      same_bytes (m.shahash (complete_write output_file_name c).bytes) c.hash_binary ≡ true
  pub opened : m.opens output_file_name ≡ true
  pub written : m.fwrite (complete_write output_file_name c) ≡ chunk_data_size

-- `waits`: data is missing. `stored`: the chunk is finished, after one write. `dropped`: the chunk is
-- to be asked for again, without its data.
pub data IsSaved (m : Platform) (output_file_name : List ℕ) (c : Chunk) (s : Saved) : Type 0 where
  waits :
      c.received_byte_num ≢ chunk_data_size
      → s.chunk ≡ c
      → s.writes ≡ []
      → IsSaved m output_file_name c s
  stored :
      c.received_byte_num ≡ chunk_data_size
      → IsStored m output_file_name c
      → s.chunk.status ≡ finished
      → s.writes ≡ complete_write output_file_name c ∷ []
      → IsSaved m output_file_name c s
  dropped :
      c.received_byte_num ≡ chunk_data_size
      → (IsStored m output_file_name c → ⊥)
      → s.chunk.status ≡ not_found
      → s.chunk.received_seq_num ≡ 0
      → s.chunk.received_byte_num ≡ 0
      → s.chunk.chunk_data ≡ none
      → IsSaved m output_file_name c s

pub save_chunk-IsSaved :
    (m : Platform) (output_file_name : List ℕ) (c : Chunk)
    → IsSaved m output_file_name c (save_chunk m output_file_name c)
unfolding save_chunk
save_chunk-IsSaved m output_file_name c = grind (arith, waits, stored, dropped)
