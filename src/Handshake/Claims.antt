-- ===== src/Handshake/Claims.antt =====
-- peer.c: the question of one node for its missing chunks, the answer of another that has one of
-- them, and the connection that the first then has.
use mathlib.Core.List.{Memᴰ}
use project_2_congest.Base.{
  ℕ, ◌≡◌, refl, sym, ap, ◌∙◌, subst, true, false, Option-cases, none, some, List, [], ◌∷◌, ◌++◌,
  get_elem?, length, leb, inl, inr, arith,
}
use project_2_congest.Clock.{Timeval}
use project_2_congest.Packet.{
  Packet, Sockaddr, Target, to_sender, send_packet, max_payload_length, type_whohas, type_ihave,
}
use project_2_congest.Job.{Chunk, Job, is_not_found, get_chunk, seach_owned_chunk}
use project_2_congest.Job.Payload.{listed_hashes}
use project_2_congest.Job.Whohas.{IsHashList}
use project_2_congest.Job.Answers.{malloc_ihave_packet-RepliesWith}
use project_2_congest.Connection.{ChunkRef, ReceiverConnection}
use project_2_congest.Connection.Receiver.{
  Claim, search_receiver_connection, get_receiver_connection_number, malloc_receiver_connection,
  add_ihave_to_receiver_connection, start_connection,
}
use project_2_congest.Connection.Kept.{
  if_listed, if_listed-HasChunk, malloc_receiver_connection-HasChunk, start_connection-Kept,
}
use project_2_congest.Control.{init_receiver_connection}
use project_2_congest.Downloads.Starts.{start_connection-list}
use project_2_congest.Peer.{Peer, Env, on_whohas, on_ihave, ihave_new}
use project_2_congest.Transfer.Arrival.{arrive}
use project_2_congest.Handshake.Offers.{add_ihave-lists}
use project_2_congest.Handshake.Arrivals.{listed-arrives}

not_empty : (r : ChunkRef) (s : Claim) → Memᴰ r s.conn.chunk_list → if_listed s ≡ none → ⊥
not_empty r s m e = go s.conn.chunk_list refl m
  where
    go : (rs : List ChunkRef) → s.conn.chunk_list ≡ rs → Memᴰ r rs → ⊥
    go [] q m = elim m [ ]
    go (x ∷ xs) q m = absurd (ground (arith, q, e))

-- The node misses the chunk `c` of its current job, the first with its hash, and it has no connection
-- with the node at place `peer` of its list and room for one.
pub record Misses (s : Peer) (peer : ℕ) (r : ChunkRef) (job : Job) (c : Chunk) : Type 0 where
  pub current : s.current_job ≡ some r.job
  pub job_there : get_elem? s.jobs r.job ≡ some (some job)
  pub chunk_there : get_elem? job.chunks r.index ≡ some c
  pub first : get_chunk job c.hash_binary ≡ some r.index
  pub missing : is_not_found c.status ≡ true
  pub no_connection : search_receiver_connection s.receivers (some peer) ≡ none
  pub room : leb s.max_receiver_connection (get_receiver_connection_number s.receivers) ≡ false

-- A connection with the node at place `peer` that is to get the chunk at `r`.
pub record Claims (s : Peer) (peer : ℕ) (r : ChunkRef) : Type 0 where
  pub conn : ReceiverConnection
  pub found : search_receiver_connection s.receivers (some peer) ≡ some conn
  pub listed : Memᴰ r conn.chunk_list

module _ (e : Env) (now : Timeval) where
  found_first :
      (conn : ReceiverConnection) (rest : List ReceiverConnection) (peer : ℕ)
      → conn.provider ≡ some peer
      → search_receiver_connection (conn ∷ rest) (some peer) ≡ some conn
  unfolding search_receiver_connection
  found_first conn rest peer q = ground (arith, q)

  ihave_new-Claims :
      (s : Peer) (peer : ℕ) (r : ChunkRef) (job : Job) (c : Chunk) (packet : Packet)
      → Misses s peer r job c
      → Memᴰ c.hash_binary (listed_hashes packet.payload)
      → Claims (ihave_new e now r.job packet (some peer) s) peer r
  unfolding ihave_new malloc_receiver_connection init_receiver_connection
  ihave_new-Claims s peer r job c packet w m =
      let fresh = record e.fresh_receiver { address = s.next_address } in
      let opened = record fresh { provider = some peer; chunk_list = [] } in
      let claim : Claim = record { jobs = s.jobs; conn = init_receiver_connection now opened } in
      let offered = add_ihave_to_receiver_connection r.job packet claim in
      let mem =
        add_ihave-lists r packet claim job c w.job_there w.chunk_there w.first w.missing m in
      elim (Option-cases (malloc_receiver_connection r.job now fresh s.jobs packet (some peer))) [
        | inl q ↦ absurd (not_empty r offered mem q)
        | inr (t, q) ↦
            let same = (if_listed-HasChunk offered t q).0 in
            let has =
              malloc_receiver_connection-HasChunk r.job now fresh s.jobs packet (some peer) t q in
            let started = start_connection e.blank now t in
            let kept = start_connection-Kept e.blank now t in
            let list = sym (ap (λ (k : Claim). k.conn.chunk_list) same) ∙ refl in
            rw (q, ihave_new)
              (record {
                conn = started.claim.conn;
                found =
                    found_first started.claim.conn s.receivers peer (kept.same_provider ∙ has.1);
                listed =
                    subst (λ (rs : List ChunkRef). Memᴰ r rs)
                      (ap (λ (k : Claim). k.conn.chunk_list) same
                        ∙ sym (start_connection-list e.blank now t))
                      mem;
              })
      ]

  on_ihave-Claims :
      (s : Peer) (peer : ℕ) (r : ChunkRef) (job : Job) (c : Chunk) (packet : Packet)
      → Misses s peer r job c
      → Memᴰ c.hash_binary (listed_hashes packet.payload)
      → Claims (on_ihave e now packet (some peer) s) peer r
  unfolding on_ihave
  on_ihave-Claims s peer r job c packet w m =
      let t = ihave_new e now r.job packet (some peer) s in
      let same : t ≡ on_ihave e now packet (some peer) s =
        ground (arith, w.current, w.no_connection, w.room) in
      subst (λ (u : Peer). Claims u peer r) same (ihave_new-Claims s peer r job c packet w m)

-- If one node misses a chunk of its current job, which is the first one with its hash, and has no
-- connection with another node and room for one, and the other has a chunk with this hash: a WHOHAS
-- packet that lists the hash, as it arrives at the other, is answered with one packet, and once this
-- arrives, the first node has a connection with the other whose list has the chunk.
pub whohas-Claims :
    (e other : Env) (now later : Timeval) (s owner : Peer) (peer : ℕ) (r : ChunkRef) (job : Job)
    (c : Chunk) (k : ℕ) (request : Packet) (to : Target) (home : Sockaddr) (stale stale' : List ℕ)
    → Misses s peer r job c
    → seach_owned_chunk owner.has_chunks c.hash_binary ≡ some k
    → length other.blank ≡ max_payload_length
    → IsHashList type_whohas request
    → length request.payload ≡ max_payload_length
    → Memᴰ c.hash_binary (listed_hashes request.payload)
    → length (arrive (send_packet request to) stale).payload ≡ max_payload_length
    → (reply : Packet) × ((on_whohas other now
          (arrive (send_packet request to) stale)
          home
          owner).sent
        ≡ owner.sent ++ (send_packet reply (to_sender home) ∷ []))
      × Claims
          (on_ihave e later (arrive (send_packet reply (to_sender home)) stale') (some peer) s)
          peer
          r
unfolding on_whohas
whohas-Claims e other now later s owner peer r job c k request to home stale stale' w owned blank
      made whole m size =
    let received = arrive (send_packet request to) stale in
    let asked =
      subst (λ (hs : List (List ℕ)). Memᴰ c.hash_binary hs)
        (sym (listed-arrives type_whohas request to stale made whole)) m in
    let a =
      malloc_ihave_packet-RepliesWith other.blank owner.has_chunks received c.hash_binary k blank
        size owned asked in
    let heard =
      subst (λ (hs : List (List ℕ)). Memᴰ c.hash_binary hs)
        (sym (listed-arrives type_ihave a.reply (to_sender home) stale' a.well_made a.whole))
        a.lists_it in
    (
      a.reply,
      rw (a.is_reply, on_whohas) refl,
      on_ihave-Claims e later s peer r job c (arrive (send_packet a.reply (to_sender home)) stale')
          w heard,
    )
