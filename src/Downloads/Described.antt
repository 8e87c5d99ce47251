-- ===== src/Downloads/Described.antt =====
-- make_chunks.c and peer.c together: the file that is got is the one that make_chunks described.
use mathlib.Core.List.{Memᴰ}
use project_2_congest.Base.{ℕ, ◌*◌, ◌≡◌, true, List, length, map}
use project_2_congest.Job.{Job}
use project_2_congest.Chunks.{bt_chunk_size, make_chunks, printed_lines}
use project_2_congest.Chunks.Hashes.{chunk_bytes}
use project_2_congest.Connection.Receiver.{Platform, Write}
use project_2_congest.Peer.{Peer, Env}

-- Chunk `i` of the file `bytes` is written to the file `name`, where it stands in `bytes`.
pub record IsCopied (m : Platform) (ws : List Write) (name bytes : List ℕ) (i : ℕ) : Type 0 where
  pub write : Write
  pub is_one : Memᴰ write ws
  pub to_file : write.file_name ≡ name
  pub opened : m.opens name ≡ true
  pub at_place : write.offset ≡ i * bt_chunk_size
  pub same_bytes : write.bytes ≡ chunk_bytes bytes i
  pub complete : m.fwrite write ≡ bt_chunk_size

module _ (e : Env) (print : ℕ × List ℕ → List ℕ) (scan : List ℕ → ℕ × List ℕ)
    (bytes name : List ℕ) where
  abbrev shahash : List ℕ → List ℕ
  shahash = e.platform.shahash

  -- The lines that make_chunks printed for the file.
  abbrev described : List (List ℕ)
  described = map print (printed_lines 0 (make_chunks shahash (length bytes) bytes))
