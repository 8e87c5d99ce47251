-- ===== src/Uploads/Tables.antt =====
-- connection.c and control.c: the chunks of the provider connections.
use project_2_congest.Base.{
  ℕ, ◌≡◌, subst, Bool-cases, Option, Option-cases, some, List, [], ◌∷◌, ◌==◌, inl, inr, arith,
}
use project_2_congest.Base.Int.{ℤ}
use project_2_congest.Clock.{Timeval}
use project_2_congest.Packet.{Packet, hash_size}
use project_2_congest.Base.Memory.{slice}
use project_2_congest.Job.{Chunk, Disk, load_chunk}
use project_2_congest.Connection.{ProviderConnection}
use project_2_congest.Connection.Provider.{
  search_provider_connection, store_provider_connection, remove_provider_connection,
  malloc_provider_connection, send_data_packet, after_send, sender_after, same_peer,
}
use project_2_congest.Control.{
  Logged, init_provider_connection, provider_control_by_ack, provider_control_by_timeout,
}
use project_2_congest.Uploads.{IsInMemory, AllServe}

module _ (cs : List Chunk) where
  pub search-IsInMemory :
      (ps : List ProviderConnection) (peer : Option ℕ) (conn : ProviderConnection)
      → AllServe cs ps
      → search_provider_connection ps peer ≡ some conn
      → IsInMemory cs conn.chunk
  unfolding search_provider_connection
  search-IsInMemory [] peer conn a e = absurd (ground (arith, e))
  search-IsInMemory (p ∷ ps) peer conn a e = elim (Bool-cases (same_peer p.receiver peer)) [
    | inl f ↦
        let same : p ≡ conn = ground (arith, f, e) in
        subst (λ (q : ProviderConnection). IsInMemory cs q.chunk) same a.0
    | inr f ↦ search-IsInMemory ps peer conn a.1 (ground (arith, f, e))
  ]

  pub store-AllServe :
      (ps : List ProviderConnection) (d : ProviderConnection)
      → IsInMemory cs d.chunk
      → AllServe cs ps
      → AllServe cs (store_provider_connection ps d)
  unfolding store_provider_connection
  store-AllServe [] d m a = tt
  store-AllServe (p ∷ ps) d m a = elim (Bool-cases (p.id == d.id)) [
    | inl f ↦ rw (f) (m, a.1)
    | inr f ↦ rw (f) (a.0, store-AllServe ps d m a.1)
  ]

  pub remove-AllServe :
      (ps : List ProviderConnection) (d : ProviderConnection)
      → AllServe cs ps
      → AllServe cs (remove_provider_connection ps d)
  unfolding remove_provider_connection
  remove-AllServe [] d a = tt
  remove-AllServe (p ∷ ps) d a = elim (Bool-cases (p.id == d.id)) [
    | inl f ↦ rw (f) a.1
    | inr f ↦ rw (f) (a.0, remove-AllServe ps d a.1)
  ]

  pub AllServe-more :
      (loaded : List Chunk) (ps : List ProviderConnection)
      → ((j : ℕ) → IsInMemory cs j → IsInMemory loaded j)
      → AllServe cs ps
      → AllServe loaded ps
  AllServe-more loaded [] h a = tt
  AllServe-more loaded (p ∷ ps) h a = (h p.chunk a.0, AllServe-more loaded ps h a.1)

-- The operations on a provider connection leave its chunk.
pub ack-chunk :
    (start_time now : Timeval) (c : Logged) (ack : ℤ)
    → (provider_control_by_ack start_time now c ack).conn.chunk ≡ c.conn.chunk
unfolding provider_control_by_ack
ack-chunk start_time now c ack = ground arith

pub timeout-chunk :
    (start_time now : Timeval) (c d : Logged)
    → provider_control_by_timeout start_time now c ≡ some d
    → d.conn.chunk ≡ c.conn.chunk
unfolding provider_control_by_timeout
timeout-chunk start_time now c d e = ground arith

pub sending-chunk :
    (blank chunk_data : List ℕ) (now : Timeval) (p : ProviderConnection)
    → (sender_after p (send_data_packet blank now chunk_data p)).chunk ≡ p.chunk
unfolding send_data_packet after_send
sending-chunk blank chunk_data now p = ground arith

pub malloc-chunk :
    (disk : Disk) (now : Timeval) (fresh : ProviderConnection) (cs : List Chunk) (id : ℕ)
    (p : Packet) (from : Option ℕ) (conn : ProviderConnection) (loaded : List Chunk)
    → malloc_provider_connection disk now fresh cs id p from ≡ some (conn, loaded)
    → load_chunk disk cs (slice 0 hash_size p.payload) ≡ some (conn.chunk, loaded)
unfolding malloc_provider_connection init_provider_connection
malloc-chunk disk now fresh cs id p from conn loaded e =
    elim (Option-cases (load_chunk disk cs (slice 0 hash_size p.payload))) [
      | inl q ↦ absurd (ground (arith, q, e))
      | inr ((k, ds), q) ↦ ground (arith, q, e)
    ]
