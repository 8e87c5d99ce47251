-- ===== src/Downloads/Verified.antt =====
-- connection.c, peer.c: a chunk is finished only when its data was written to a file, the SHA-1 of the
-- data that of the chunk.
pub mod Handlers
use mathlib.Core.List.{Memᴰ}
use mathlib.Core.List.Memᴰ
use project_2_congest.Base.{
  subst, ℕ, ◌*◌, ◌≡◌, refl, sym, ap, ◌∙◌, subst, true, Bool-cases, Option, Option-cases, some, List,
  [], ◌∷◌, ◌++◌, map, leb, inl, inr, arith,
}
use project_2_congest.Base.Memory.{same_bytes}
use project_2_congest.Clock.{Timeval}
use project_2_congest.Packet.{Packet, Sockaddr, chunk_data_size, send_packet, to_sender}
use project_2_congest.Job.{Chunk}
use project_2_congest.Store.{chunk_at, set_chunk}
use project_2_congest.Connection.{ChunkRef, ReceiverConnection, received_data}
use project_2_congest.Connection.Receiver.{
  Platform, Write, Claim, search_receiver_connection, get_receiver_connection_number,
  malloc_receiver_connection, save_data_packet, save_chunk, reset_receiver_connection,
  complete_write,
}
use project_2_congest.Connection.Kept.{Reset-cases}
use project_2_congest.Connection.Saving.{IsSaved, waits, stored, dropped, save_chunk-IsSaved}
use project_2_congest.Peer.{
  Peer, Env, on_whohas, on_ihave, ihave_existing, ihave_new, on_get, on_ack, on_data, take_data,
  data_for_chunk, data_for_list, output_name, process_inbound_udp,
}
use project_2_congest.Peer.Data.{receive_data}
use project_2_congest.Peer.Dispatch.{process_inbound_udp-keeps}
use project_2_congest.Downloads.Resets.{
  jobs_after, receive_data-status, save_chunk-same, receive_data-same,
}
use project_2_congest.Downloads.Packets.{SameDownloads, on_whohas-same, on_get-same, on_ack-same}
use project_2_congest.Downloads.Steady.{Steady, Steady-output_name}
use project_2_congest.Downloads.Written.{
  IfFinished, AllFinished, set_chunk-AllFinished, AllFinished-Survives,
}

-- One of the writes was of data of the hash `hash`, to a file that opened, after a seek to the place
-- of chunk `id`, and all of it was written.
pub record IsWritten (m : Platform) (ws : List Write) (id : ℕ) (hash : List ℕ) : Type 0 where
  pub write : Write
  pub is_one : Memᴰ write ws
  pub at_place : write.offset ≡ id * chunk_data_size
  pub verified : same_bytes (m.shahash write.bytes) hash ≡ true
  pub opened : m.opens write.file_name ≡ true
  pub complete : m.fwrite write ≡ chunk_data_size

-- A chunk of the job `current` is written to the file `name`, one of another job to some file.
abbrev pub WrittenTo : Platform → List Write → Option ℕ → List ℕ → ChunkRef → ℕ → List ℕ → Type 0
WrittenTo m ws current name q id hash =
    (w : IsWritten m ws id hash) × (current ≡ some q.job → w.write.file_name ≡ name)

abbrev pub VerifiedFor : Platform → Option ℕ → List ℕ → Peer → Type 0
VerifiedFor m current name s = AllFinished (WrittenTo m s.writes current name) s.jobs

-- Every finished chunk of the jobs of a node is written, one of the current job to its file.
abbrev pub Verified : Platform → Peer → Type 0
Verified m s = VerifiedFor m s.current_job (output_name s) s

pub Verified-Steady :
    (m : Platform) (t s : Peer)
    → Steady t s
    → VerifiedFor m s.current_job (output_name s) t
    → Verified m t
Verified-Steady m t s h v =
    subst (λ n. VerifiedFor m t.current_job n t) (sym (Steady-output_name t s h))
      (subst (λ k. VerifiedFor m k (output_name s) t) (sym h.1) v)

-- More writes take nothing back.
pub IsWritten-append :
    (m : Platform) (ws more : List Write) (id : ℕ) (hash : List ℕ) (w : IsWritten m ws id hash)
    → (v : IsWritten m (ws ++ more) id hash) × (v.write ≡ w.write)
IsWritten-append m ws more id hash w = (
  record {
    write = w.write;
    is_one = Memᴰ.append_left more w.is_one;
    at_place = w.at_place;
    verified = w.verified;
    opened = w.opened;
    complete = w.complete;
  },
  refl,
)

pub WrittenTo-append :
    (m : Platform) (ws more : List Write) (current : Option ℕ) (name : List ℕ) (q : ChunkRef)
    (id : ℕ) (hash : List ℕ)
    → WrittenTo m ws current name q id hash
    → WrittenTo m (ws ++ more) current name q id hash
WrittenTo-append m ws more current name q id hash h =
    let (v, same) = IsWritten-append m ws more id hash h.0 in
    (v, λ e. ap (λ (w : Write). w.file_name) same ∙ h.1 e)

pub save_chunk-WrittenTo :
    (m : Platform) (ws : List Write) (current : Option ℕ) (name out : List ℕ) (q : ChunkRef)
    (c : Chunk)
    → out ≡ name
    → IfFinished (WrittenTo m ws current name q) c
    → let s = save_chunk m out c in IfFinished (WrittenTo m (ws ++ s.writes) current name q) s.chunk
save_chunk-WrittenTo m ws current name out q c is_name h f =
    let s = save_chunk m out c in
    let same = save_chunk-same m out c in rw (same.0, same.1) (go (save_chunk-IsSaved m out c))
  where
    go :
        let s = save_chunk m out c in
        IsSaved m out c s → WrittenTo m (ws ++ s.writes) current name q c.id c.hash_binary
    go (waits n e none_yet) =
        WrittenTo-append m ws _ current name q c.id c.hash_binary
          (h (ap (λ (d : Chunk). d.status) (sym e) ∙ f))
    go (stored n is_stored e writes) = (
      record {
        write = complete_write out c;
        is_one = rw (writes) (Memᴰ.append_right ws (Memᴰ.head refl));
        at_place = refl;
        verified = is_stored.verified;
        opened = is_stored.opened;
        complete = is_stored.written;
      },
      λ same. is_name,
    )
    go (dropped n no_write e seq bytes block) = absurd (ground (arith, e, f))
