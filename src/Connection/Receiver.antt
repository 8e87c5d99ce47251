-- ===== src/Connection/Receiver.antt =====
-- connection.c: the operations on receiver connections, and on the chunks that they point to.
mod Content
unfoldable pub use Content.{data_size, save_data_packet, save_complete, save_chunk}
pub use Content.{bytes_of, Write, Platform, Saved, complete_write}
use project_2_congest.Base.{
  ℕ, zero, suc, ◌+◌, ◌-◌, ◌*◌, ◌≤◌, ◌≡◌, Bool, true, false, not, Option, none, some, List, [], ◌∷◌,
  ◌++◌, take, ltb, leb, ◌==◌, if◌then◌else◌,
}
use project_2_congest.Base.Int.{pos, pos_part, ltb_ℤ, ◌-ℤ◌}
use project_2_congest.Base.Memory.{memcpy, same_bytes}
use project_2_congest.Base.Word.{signed16, signed32}
use project_2_congest.Clock.{Timeval}
use project_2_congest.Packet.{
  Packet, Datagram, to_peer, send_packet, chunk_data_size, max_payload_length,
}
use project_2_congest.Job.{
  Chunk, Job, ChunkStatus, not_found, downloading, pending, finished, is_not_found, get_chunk,
  malloc_get_packet,
}
use project_2_congest.Job.Payload.{hash_at, count_at}
use project_2_congest.Connection.{ChunkRef, ReceiverConnection}
use project_2_congest.Connection.Provider.{same_peer}
use project_2_congest.Control.{init_receiver_connection}
use project_2_congest.Store.{Jobs, chunk_at, set_chunk}

unfoldable pub search_receiver_connection :
    List ReceiverConnection → Option ℕ → Option ReceiverConnection
search_receiver_connection [] provider = none
search_receiver_connection (r ∷ rs) provider =
    if same_peer r.provider provider then some r else search_receiver_connection rs provider

unfoldable pub get_receiver_connection_number : List ReceiverConnection → ℕ
get_receiver_connection_number [] = 0
get_receiver_connection_number (r ∷ rs) = suc (get_receiver_connection_number rs)

unfoldable pub remove_receiver_connection :
    List ReceiverConnection → ReceiverConnection → List ReceiverConnection
remove_receiver_connection [] target = []
remove_receiver_connection (r ∷ rs) target =
    if r.address == target.address then rs else r ∷ remove_receiver_connection rs target

-- What a handler writes into the connection that a pointer names.
unfoldable pub store_receiver_connection :
    List ReceiverConnection → ReceiverConnection → List ReceiverConnection
store_receiver_connection [] target = []
store_receiver_connection (r ∷ rs) target =
    if r.address == target.address then target ∷ rs else r ∷ store_receiver_connection rs target

-- A connection, and the jobs that its chunks are in.
pub record Claim : Type 0 where
  pub jobs : Jobs
  pub conn : ReceiverConnection

-- `c` is the chunk at `r`.
unfoldable pub add_chunk_to_receiver_connection : Claim → ChunkRef → Chunk → Claim
add_chunk_to_receiver_connection s r c = record {
  jobs = set_chunk s.jobs r (record c { status = pending });
  conn = record s.conn { chunk_list = s.conn.chunk_list ++ (r ∷ []) };
}

-- The body of the loop for one hash of an IHAVE packet, at the chunk that it names.
unfoldable pub offer_chunk : Claim → ChunkRef → Claim
offer_chunk s r = elim (chunk_at s.jobs r) [
  | none ↦ s
  | some c ↦ if is_not_found c.status then add_chunk_to_receiver_connection s r c else s
]

abbrev pub job_at : Jobs → ℕ → Option Job
job_at jobs j = elim (project_2_congest.Base.get_elem? jobs j) [ none ↦ none | some slot ↦ slot ]

abbrev pub offer_found : ℕ → Claim → Option ℕ → Claim
offer_found j s none = s
offer_found j s (some i) = offer_chunk s (record { job = j; index = i })

abbrev pub offer_in : ℕ → Claim → List ℕ → Option Job → Claim
offer_in j s hash none = s
offer_in j s hash (some job) = offer_found j s (get_chunk job hash)

-- The loop's body for one hash: the chunk that it names in job `j`.
unfoldable pub offer_hash : ℕ → Claim → List ℕ → Claim
offer_hash j s hash = offer_in j s hash (job_at s.jobs j)

-- `j` is the current job.
unfoldable pub ihave_offers : ℕ → List ℕ → ℕ → ℕ → Claim → Claim
ihave_offers j payload zero i s = s
ihave_offers j payload (suc left) i s =
    ihave_offers j payload left (suc i) (offer_hash j s (hash_at payload i))

unfoldable pub add_ihave_to_receiver_connection : ℕ → Packet → Claim → Claim
unfolding ihave_offers
add_ihave_to_receiver_connection j ihave_packet s =
    ihave_offers j ihave_packet.payload (count_at ihave_packet.payload) 0 s

abbrev pub put_back : Chunk → Chunk
put_back c = elim c.status [
  | finished ↦ c
  | _ ↦ record c { status = not_found; received_seq_num = 0; received_byte_num = 0 }
]

abbrev pub put_back_at : Jobs → ChunkRef → Jobs
put_back_at jobs r = elim (chunk_at jobs r) [ none ↦ jobs | some c ↦ set_chunk jobs r (put_back c) ]

-- `cancel_receiver_connection`, along the list of chunks. The connection is freed.
unfoldable pub cancel_chunks : List ChunkRef → Jobs → Jobs
cancel_chunks [] jobs = jobs
cancel_chunks (r ∷ rs) jobs = cancel_chunks rs (put_back_at jobs r)

unfoldable pub cancel_receiver_connection : ReceiverConnection → Jobs → Jobs
unfolding cancel_chunks
cancel_receiver_connection conn jobs = cancel_chunks conn.chunk_list jobs

-- The new connection, unless no chunk came to its list; `fresh` is what the memory that `malloc`
-- gave for it holds, its address included.
unfoldable pub malloc_receiver_connection :
    ℕ → Timeval → ReceiverConnection → Jobs → Packet → Option ℕ → Option Claim
malloc_receiver_connection j now fresh jobs ihave_packet from =
    let opened = record fresh { provider = from; chunk_list = [] } in
    let s =
      add_ihave_to_receiver_connection j ihave_packet
        (record { jobs = jobs; conn = init_receiver_connection now opened }) in
    elim s.conn.chunk_list [ [] ↦ none | r ∷ rs ↦ some s ]

-- A claim, and the packets that were sent.
pub record Started : Type 0 where
  pub claim : Claim
  pub sent : List Datagram

abbrev pub start_at : List ℕ → Timeval → Claim → ChunkRef → Started
start_at blank now s r = elim (chunk_at s.jobs r) [
  | none ↦ record { claim = s; sent = [] }
  | some c ↦ record {
    claim = record {
      jobs = set_chunk s.jobs r (record c { status = downloading });
      conn = record s.conn { last_get_time = now };
    };
    sent = send_packet (malloc_get_packet blank c) (to_peer s.conn.provider) ∷ [];
  }
]

-- GET the first chunk of the list.
unfoldable pub start_connection : List ℕ → Timeval → Claim → Started
start_connection blank now s = elim s.conn.chunk_list [
  | [] ↦ record { claim = s; sent = [] }
  | r ∷ rs ↦ start_at blank now s r
]

-- The connection goes on, with what it sent, or its list is done and it is removed and freed.
pub data Reset : Type 0 where
  goes_on : Started → Reset
  done : Jobs → Reset

abbrev pub next_chunk : List ℕ → Timeval → Claim → List ChunkRef → Reset
next_chunk blank now s [] = done s.jobs
next_chunk blank now s (r ∷ rs) = goes_on (
    start_connection blank now
      (record { jobs = s.jobs; conn = record s.conn { chunk_list = r ∷ rs } }))

abbrev pub is_downloading : ChunkStatus → Bool
is_downloading downloading = true
is_downloading _ = false

-- `c` is the first chunk, and `rest` are those behind it.
unfoldable pub reset_receiver_connection : List ℕ → Timeval → Claim → Chunk → List ChunkRef → Reset
reset_receiver_connection blank now s c rest =
    if is_downloading c.status
    then goes_on (record { claim = s; sent = [] })
    else next_chunk blank now s rest
