-- ===== src/Connection/Kept.antt =====
-- connection.c: what the operations on a receiver connection leave as it was.
use project_2_congest.Base.{
  inl, inr, ◌⊎◌, ℕ, zero, suc, ◌+◌, ◌≡◌, ◌≤◌, refl, subst, ◌∙◌, Option, none, some, List, [], ◌∷◌,
  ◌++◌, length, arith,
}
use project_2_congest.Clock.{Timeval}
use project_2_congest.Packet.{Packet}
use project_2_congest.Job.{Chunk, Job, get_chunk}
use project_2_congest.Job.Payload.{hash_at, count_at}
use project_2_congest.Store.{Jobs}
use project_2_congest.Connection.{ReceiverConnection, ChunkRef}
use project_2_congest.Connection.Receiver.{
  Started, reset_receiver_connection, Reset, goes_on, done, Claim, job_at, offer_chunk, offer_found,
  offer_in, offer_hash, ihave_offers, add_chunk_to_receiver_connection,
  add_ihave_to_receiver_connection, start_connection, malloc_receiver_connection,
}
use project_2_congest.Control.{init_receiver_connection}
use project_2_congest.Connection.Receivers.{HasChunk}

-- What the operations on a connection leave as it was.
pub record Kept (a b : ReceiverConnection) : Type 0 where
  pub same_address : b.address ≡ a.address
  pub same_provider : b.provider ≡ a.provider
  pub list_grows : length a.chunk_list ≤ length b.chunk_list

Kept-refl : (a : ReceiverConnection) → Kept a a
Kept-refl a = record { same_address = refl; same_provider = refl; list_grows = omega arith }

length-append_one : (r : ChunkRef) (rs : List ChunkRef) → length (rs ++ (r ∷ [])) ≡ length rs + 1
length-append_one r [] = omega arith
length-append_one r (x ∷ rs) = omega (arith, length-append_one r rs)

offer_chunk-Kept : (s : Claim) (r : ChunkRef) → Kept s.conn (offer_chunk s r).conn
unfolding offer_chunk add_chunk_to_receiver_connection
offer_chunk-Kept s r = ground (arith, length-append_one r s.conn.chunk_list)

offer_found-Kept : (j : ℕ) (s : Claim) (o : Option ℕ) → Kept s.conn (offer_found j s o).conn
offer_found-Kept j s none = Kept-refl s.conn
offer_found-Kept j s (some i) = offer_chunk-Kept s (record { job = j; index = i })

offer_in-Kept :
    (j : ℕ) (s : Claim) (hash : List ℕ) (o : Option Job) → Kept s.conn (offer_in j s hash o).conn
offer_in-Kept j s hash none = Kept-refl s.conn
offer_in-Kept j s hash (some job) = offer_found-Kept j s (get_chunk job hash)

offer_hash-Kept : (j : ℕ) (s : Claim) (hash : List ℕ) → Kept s.conn (offer_hash j s hash).conn
unfolding offer_hash
offer_hash-Kept j s hash = offer_in-Kept j s hash (job_at s.jobs j)

ihave_offers-Kept :
    (j : ℕ) (payload : List ℕ) (n i : ℕ) (s : Claim)
    → Kept s.conn (ihave_offers j payload n i s).conn
unfolding ihave_offers
ihave_offers-Kept j payload zero i s = ground arith
ihave_offers-Kept j payload (suc n) i s =
    let one = offer_hash-Kept j s (hash_at payload i) in
    let more = ihave_offers-Kept j payload n (suc i) (offer_hash j s (hash_at payload i)) in
    record {
      same_address = more.same_address ∙ one.same_address;
      same_provider = more.same_provider ∙ one.same_provider;
      list_grows = omega (arith, one.list_grows, more.list_grows);
    }

pub add_ihave-Kept :
    (j : ℕ) (p : Packet) (s : Claim) → Kept s.conn (add_ihave_to_receiver_connection j p s).conn
unfolding add_ihave_to_receiver_connection
add_ihave-Kept j p s = ihave_offers-Kept j p.payload (count_at p.payload) 0 s

pub start_connection-Kept :
    (blank : List ℕ) (now : Timeval) (s : Claim)
    → Kept s.conn (start_connection blank now s).claim.conn
unfolding start_connection
start_connection-Kept blank now s = ground arith

abbrev pub if_listed : Claim → Option Claim
if_listed s = elim s.conn.chunk_list [ [] ↦ none | r ∷ rs ↦ some s ]

pub if_listed-HasChunk :
    (s claim : Claim) → if_listed s ≡ some claim → (s ≡ claim) × HasChunk s.conn
if_listed-HasChunk s claim e = ground arith

-- A new connection has a chunk in its list.
pub malloc_receiver_connection-HasChunk :
    (j : ℕ) (now : Timeval) (fresh : ReceiverConnection) (jobs : Jobs) (p : Packet)
    (from : Option ℕ) (claim : Claim)
    → malloc_receiver_connection j now fresh jobs p from ≡ some claim
    → (claim.conn.address ≡ fresh.address) × (claim.conn.provider ≡ from) × HasChunk claim.conn
unfolding malloc_receiver_connection init_receiver_connection
malloc_receiver_connection-HasChunk j now fresh jobs p from claim e =
    let opened = record fresh { provider = from; chunk_list = [] } in
    let s : Claim = record { jobs = jobs; conn = init_receiver_connection now opened } in
    let listed = if_listed-HasChunk (add_ihave_to_receiver_connection j p s) claim e in
    let kept = add_ihave-Kept j p s in
    subst
      (λ (c : Claim). (c.conn.address ≡ fresh.address) × (c.conn.provider ≡ from) × HasChunk c.conn)
      listed.0 (kept.same_address, kept.same_provider, listed.1)

-- A connection that goes on still has a chunk.
pub reset-HasChunk :
    (blank : List ℕ) (now : Timeval) (s : Claim) (c : Chunk) (rest : List ChunkRef)
    (started : Started)
    → reset_receiver_connection blank now s c rest ≡ goes_on started
    → HasChunk s.conn
    → (started.claim.conn.address ≡ s.conn.address)
      × (started.claim.conn.provider ≡ s.conn.provider)
      × HasChunk started.claim.conn
unfolding reset_receiver_connection start_connection
reset-HasChunk blank now s c [] started e h = ground arith
reset-HasChunk blank now s c (r ∷ rest) started e h = ground arith

pub Reset-cases :
    (r : Reset) → ((started : Started) × (r ≡ goes_on started)) ⊎ ((jobs : Jobs) × (r ≡ done jobs))
Reset-cases (goes_on started) = inl (started, refl)
Reset-cases (done jobs) = inr (jobs, refl)
