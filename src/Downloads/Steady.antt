-- ===== src/Downloads/Steady.antt =====
-- peer.c: what the handlers of packets leave as it was: the current job, what was announced, the
-- names of the jobs and the identities and the hashes of their chunks, and the writes that were done.
pub mod Handlers
use mathlib.Core.List.{append-nil, append_assoc}
use project_2_congest.Base.{
  ℕ, zero, suc, ◌≡◌, refl, sym, ap, ap₂, ◌∙◌, Bool-cases, Option, Option-cases, none, some, List,
  [], ◌∷◌, ◌++◌, map, get_elem?, set, leb, subst, inl, inr, arith,
}
use project_2_congest.Clock.{Timeval}
use project_2_congest.Packet.{Packet, Sockaddr, send_packet, to_sender}
use project_2_congest.Job.{Chunk, Job}
use project_2_congest.Store.{Jobs, chunk_at, set_chunk, with_chunk}
use project_2_congest.Store.Writes.{chunk_of-job}
use project_2_congest.Connection.{ChunkRef, ReceiverConnection, received_data}
use project_2_congest.Connection.Receiver.{
  Platform, Write, Claim, search_receiver_connection, get_receiver_connection_number,
  malloc_receiver_connection, save_data_packet, save_chunk, reset_receiver_connection,
}
use project_2_congest.Connection.Kept.{Reset-cases}
use project_2_congest.Peer.{
  Peer, Env, on_whohas, on_ihave, ihave_existing, ihave_new, on_get, get_new, on_ack, on_data,
  take_data, data_for_chunk, data_for_list, output_name, process_inbound_udp, job_of,
}
use project_2_congest.Peer.Data.{receive_data}
use project_2_congest.Peer.Dispatch.{process_inbound_udp-keeps}
use project_2_congest.Peer.Flooding.{flood_whohas}
use project_2_congest.Peer.Round.{time_out_all, send_all}
use project_2_congest.Downloads.Resets.{jobs_after}
use project_2_congest.Downloads.Preserved.{
  Survives, add_ihave-keeps, malloc_receiver_connection-keeps, start_connection-keeps, reset-keeps,
  receivers_timeout-keeps,
}

-- What is asked for: the name of the file, and for each chunk its identity and its hash.
abbrev pub Outline : Type 0
Outline = List ℕ × List (ℕ × List ℕ)

abbrev pub label : Chunk → ℕ × List ℕ
label c = (c.id, c.hash_binary)

abbrev pub outline : Job → Outline
outline job = (job.output_file_name, map label job.chunks)

abbrev pub outline_of : Option Job → Option Outline
outline_of none = none
outline_of (some job) = some (outline job)

abbrev pub outlines : Jobs → List (Option Outline)
outlines jobs = map outline_of jobs

map-set :
    {A B : Type 0} (f : A → B) (xs : List A) (i : ℕ) (x v : A)
    → get_elem? xs i ≡ some x
    → f v ≡ f x
    → map f (set xs i v) ≡ map f xs
map-set f [] i x v at e = refl
map-set f (y ∷ xs) zero x v at e =
    let same : y ≡ x = ground (arith, at) in ap (λ b. b ∷ map f xs) (e ∙ ap f (sym same))
map-set f (y ∷ xs) (suc i) x v at e = ap (λ bs. f y ∷ bs) (map-set f xs i x v at e)

pub set_chunk-outlines :
    (jobs : Jobs) (r : ChunkRef) (c d : Chunk)
    → chunk_at jobs r ≡ some d
    → c.id ≡ d.id
    → c.hash_binary ≡ d.hash_binary
    → outlines (set_chunk jobs r c) ≡ outlines jobs
unfolding chunk_at set_chunk
set_chunk-outlines jobs r c d e id hash =
    let (job, at, here) = chunk_of-job (get_elem? jobs r.job) r.index d e in
    let slot = with_chunk (some job) r.index c in
    let same : outline_of slot ≡ outline_of (some job) =
      ap (λ ls. some (job.output_file_name, ls))
        (map-set label job.chunks r.index d c here (ap₂ (λ i h. (i, h)) id hash)) in
    rw (at, set_chunk) (map-set outline_of jobs r.job (some job) slot at same)

pub outlines-Survives : (o : List (Option Outline)) → Survives (λ jobs. outlines jobs ≡ o)
outlines-Survives o jobs r c d at id hash status a = set_chunk-outlines jobs r c d at id hash ∙ a

abbrev pub Steady : Peer → Peer → Type 0
Steady t s =
    (outlines t.jobs ≡ outlines s.jobs)
    × (t.current_job ≡ s.current_job)
    × (t.got ≡ s.got)
    × ((more : List Write) × (t.writes ≡ s.writes ++ more))

-- The name of the file that a chunk is written to.
named : Option ℕ → List (Option Outline) → List ℕ
named none os = []
named (some j) os = elim (get_elem? os j) [
  | none ↦ []
  | some slot ↦ elim slot [ none ↦ [] | some o ↦ o.0 ]
]

pub get_elem?-outlines :
    (jobs : Jobs) (j : ℕ)
    → get_elem? (outlines jobs) j
      ≡ elim (get_elem? jobs j) [ none ↦ none | some slot ↦ some (outline_of slot) ]
get_elem?-outlines [] j = refl
get_elem?-outlines (x ∷ xs) zero = refl
get_elem?-outlines (x ∷ xs) (suc j) = get_elem?-outlines xs j

output_name-named : (s : Peer) → output_name s ≡ named s.current_job (outlines s.jobs)
unfolding named
output_name-named s = elim (Option-cases s.current_job) [
  | inl e ↦ rw (e) refl
  | inr (j, e) ↦ ground (arith, e, get_elem?-outlines s.jobs j)
]

-- The chunks are still written to the same file.
pub Steady-output_name : (t s : Peer) → Steady t s → output_name t ≡ output_name s
Steady-output_name t s h = output_name-named t ∙ ap₂ named h.1 h.0 ∙ sym (output_name-named s)

-- Nothing was written.
pub quiet :
    (t s : Peer)
    → outlines t.jobs ≡ outlines s.jobs
    → t.current_job ≡ s.current_job
    → t.got ≡ s.got
    → t.writes ≡ s.writes
    → Steady t s
quiet t s jobs current got writes = (jobs, current, got, ([], writes ∙ sym (append-nil s.writes)))

pub Steady-refl : (s : Peer) → Steady s s
Steady-refl s = quiet s s refl refl refl refl

pub Steady-same : (u t s : Peer) → u ≡ t → Steady u s → Steady t s
Steady-same u t s e h = subst (λ (v : Peer). Steady v s) e h

pub Steady-trans : (u t s : Peer) → Steady u t → Steady t s → Steady u s
Steady-trans u t s h k =
    let (first, wrote) = k.3 in
    let (second, wrote') = h.3 in
    (
      h.0 ∙ k.0,
      h.1 ∙ k.1,
      h.2 ∙ k.2,
      (first ++ second, rw (wrote', wrote) (append_assoc s.writes first second)),
    )
