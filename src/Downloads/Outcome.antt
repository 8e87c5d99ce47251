-- ===== src/Downloads/Outcome.antt =====
-- peer.c: what it means that a job is done, and what the pointers in the lists lead to.
use mathlib.Core.List.{Memᴰ}
use project_2_congest.Base.{
  ℕ, zero, suc, ◌≤◌, ◌≡◌, ◌↔◌, refl, sym, ap, ◌∙◌, Option, none, some, List, [], ◌∷◌, subst, false,
  get_elem?, inl, inr, arith,
}
use project_2_congest.Clock.{Timeval}
use project_2_congest.Job.{
  Chunk, downloading, pending, finished, is_not_found, Job, count_not_found,
  get_not_found_chunk_number,
}
use project_2_congest.Store.{chunk_at}
use project_2_congest.Connection.{ChunkRef, ReceiverConnection}
use project_2_congest.Connection.Receiver.{
  Platform, get_receiver_connection_number, search_receiver_connection,
}
use project_2_congest.Connection.Receivers.{search-le-total}
use project_2_congest.Peer.{Peer, Env, job_of, output_name}
use project_2_congest.Peer.Flooding.{finish_job}
use project_2_congest.Peer.Loop.{Happening, peer_run, init_connections}
use project_2_congest.Downloads.{hit, occurrences, at_head, behind, heads, waiters, down, pend}
use project_2_congest.Downloads.Starts.{hit_self, pending_of, downloading_of}
use project_2_congest.Downloads.Packets.{ClaimedBy}
use project_2_congest.Downloads.Verified.{IsWritten, Verified}
use project_2_congest.Downloads.Finish.{idle, Finishes, finish_job-cases, job_of-slot}
use project_2_congest.Downloads.Loop.{peer_run-DownloadsInv}

not_missing :
    (cs : List Chunk) (i : ℕ) (c : Chunk)
    → count_not_found cs ≡ 0
    → get_elem? cs i ≡ some c
    → is_not_found c.status ≡ false
unfolding count_not_found
not_missing [] i c n e = absurd (ground arith)
not_missing (x ∷ xs) zero c n e = ground arith
not_missing (x ∷ xs) (suc i) c n e = not_missing xs i c (omega (arith, n)) e

all_done :
    (cs : List Chunk)
    → ((i : ℕ) (c : Chunk) → get_elem? cs i ≡ some c → c.status ≡ finished)
    → count_not_found cs ≡ 0
unfolding count_not_found
all_done [] h = refl
all_done (x ∷ xs) h = ground (arith, h 0 x refl, all_done xs (λ i c e. h (suc i) c e))

-- A chunk that is not missing, not downloaded and does not wait.
rest_finished :
    (c : Chunk)
    → is_not_found c.status ≡ false
    → down (some c) ≡ 0
    → pend (some c) ≡ 0
    → c.status ≡ finished
rest_finished c n d p = ground arith

all_finished :
    (s : Peer) (j : ℕ) (job : Job)
    → ClaimedBy s
    → get_receiver_connection_number s.receivers ≡ 0
    → job_of s.jobs j ≡ some job
    → get_not_found_chunk_number job ≡ 0
    → (i : ℕ) (c : Chunk) → get_elem? job.chunks i ≡ some c
    → (chunk_at s.jobs (record { job = j; index = i }) ≡ some c) × (c.status ≡ finished)
unfolding chunk_at get_not_found_chunk_number
all_finished s j job w n f z i c e =
    let q : ChunkRef = record { job = j; index = i } in
    let at : chunk_at s.jobs q ≡ some c = rw (job_of-slot s.jobs j job f) e in
    let quiet = idle s q w n in
    (
      at,
      rest_finished c (not_missing job.chunks i c z e) (sym (ap down at) ∙ quiet.0)
          (sym (ap pend at) ∙ quiet.1),
    )

-- Of a job that ends every chunk is written to its file.
pub finished-IsWritten :
    (m : Platform) (s t : Peer)
    → ClaimedBy s
    → Verified m s
    → (d : Finishes s t) → (i : ℕ) (c : Chunk) → get_elem? d.job.chunks i ≡ some c
    → (w : IsWritten m s.writes c.id c.hash_binary) × (w.write.file_name ≡ d.job.output_file_name)
finished-IsWritten m s t claimed verified d i c at =
    let done = all_finished s d.index d.job claimed d.no_receiver d.found d.none_missing i c at in
    let (w, to_file) = verified (record { job = d.index; index = i }) c done.0 done.1 in
    let output : output_name s ≡ d.job.output_file_name = ground (arith, d.current, d.found) in
    (w, to_file d.current ∙ output)

module _ (e : Env) (now : Timeval) where
  -- finish_job on the current job of a node whose lists claim the chunks: it ends the job exactly
  -- if no receiver connection is left and every chunk of the job is finished.
  pub finish_job_iff :
      (s : Peer) (j : ℕ) (job : Job)
      → ClaimedBy s
      → s.current_job ≡ some j
      → job_of s.jobs j ≡ some job
      → ((finish_job e now s).current_job ≡ none) ↔ (
          (get_receiver_connection_number s.receivers ≡ 0)
          × ((i : ℕ) (c : Chunk) → get_elem? job.chunks i ≡ some c → c.status ≡ finished))
  unfolding get_not_found_chunk_number finish_job
  finish_job_iff s j job w q f = (
    λ ended. elim (finish_job-cases e now s) [
      | inl same ↦ absurd (ground (arith, ended, same, q))
      | inr d ↦
          let same_index : d.index ≡ j = ground (arith, d.current, q) in
          let same_job : d.job ≡ job = ground (arith, d.found, f, same_index) in
          let z = subst (λ (k : Job). get_not_found_chunk_number k ≡ 0) same_job d.none_missing in
          (d.no_receiver, λ i c at. (all_finished s j job w d.no_receiver f z i c at).1)
    ],
    λ h. let z = all_done job.chunks h.1 in ground (arith, q, f, h.0, z),
  )

occurs : (q : ChunkRef) (rs : List ChunkRef) → Memᴰ q rs → 1 ≤ occurrences q rs
occurs q [] m = elim m [ ]
occurs q (r ∷ rs) (Memᴰ.head e) = omega (arith, ap (hit r) e, hit_self r)
occurs q (r ∷ rs) (Memᴰ.tail m) = omega (arith, occurs q rs m)

module _ (e : Env) (scan : List ℕ → ℕ × List ℕ) where
  -- For a node without jobs whose connections are freshly initialised, after any number of rounds
  -- of the loop: a receiver connection that is found has a first pointer that leads to a chunk that
  -- is downloaded, and each pointer behind it leads to a chunk that waits. None leads into freed
  -- memory.
  pub peer_run-pointers :
      (max_conn : ℕ) (s : Peer) (hs : List Happening) (last_flood_whohas_time : Timeval)
      (peer : Option ℕ) (conn : ReceiverConnection) (r : ChunkRef) (rest : List ChunkRef)
      → s.jobs ≡ []
      → let t = (peer_run e scan hs (init_connections max_conn s) last_flood_whohas_time).0 in
        search_receiver_connection t.receivers peer ≡ some conn
        → conn.chunk_list ≡ r ∷ rest
        → ((c : Chunk) × (chunk_at t.jobs r ≡ some c) × (c.status ≡ downloading))
          × ((q : ChunkRef)
              → Memᴰ q rest
              → (c : Chunk) × (chunk_at t.jobs q ≡ some c) × (c.status ≡ pending))
  peer_run-pointers max_conn s hs last peer conn r rest z f list =
      let t = (peer_run e scan hs (init_connections max_conn s) last).0 in
      let w = (peer_run-DownloadsInv e scan max_conn s hs last z).claimed in
      let below = λ (k : ReceiverConnection → ℕ). search-le-total k t.receivers peer conn f in
      (
        downloading_of (chunk_at t.jobs r)
            (omega (arith, w.heads_down r, below (heads r), ap (at_head r) list, hit_self r)),
        λ q m. pending_of (chunk_at t.jobs q) (
            omega
              (arith, w.waiters_pend q, below (waiters q), ap (behind q) list, occurs q rest m)),
      )
