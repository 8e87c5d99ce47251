-- ===== src/Peer/Serving.antt =====
-- peer.c: the handlers of WHOHAS, GET and ACK packets keep the lists of connections in order.
use project_2_congest.Base.{
  ℕ, ◌<◌, ◌≡◌, ap, ◌∙◌, Option, none, some, List, length, leb, ◌==◌, Option-cases, Bool-cases, inl,
  inr, arith,
}
use project_2_congest.Base.Int.{ℤ}
use project_2_congest.Base.Word.{signed32}
use project_2_congest.Clock.{Timeval}
use project_2_congest.Packet.{Packet, Sockaddr, chunk_data_num}
use project_2_congest.Job.{Chunk, Disk, malloc_ihave_packet}
use project_2_congest.Connection.{ProviderConnection}
use project_2_congest.Connection.Provider.{
  search_provider_connection, get_provider_connection_number, malloc_provider_connection,
}
use project_2_congest.Connection.Providers.{
  Providers-cons, search-Inv, store-ProvidersFollow, remove-ProvidersFollow, number-eq-length,
}
use project_2_congest.Control.{Logged, init_provider_connection, provider_control_by_ack}
use project_2_congest.Control.Invariant.{Inv, provider_control_by_ack-Inv}
use project_2_congest.Peer.{Peer, Env, on_whohas, on_get, get_new, on_ack}
use project_2_congest.Peer.Invariant.{PeerInv, providers_follow}

malloc_provider_connection-Inv :
    (disk : Disk) (now : Timeval) (fresh : ProviderConnection) (has_chunks : List Chunk) (id : ℕ)
    (p : Packet) (from : Option ℕ) (c : ProviderConnection) (loaded : List Chunk)
    → malloc_provider_connection disk now fresh has_chunks id p from ≡ some (c, loaded)
    → Inv c × (c.id ≡ id) × (c.receiver ≡ from)
unfolding malloc_provider_connection init_provider_connection
malloc_provider_connection-Inv disk now fresh has_chunks id p from c loaded e = ground arith

ack-same :
    (start_time now : Timeval) (c : Logged) (ack : ℤ)
    → let d = (provider_control_by_ack start_time now c ack).conn in
      (d.id ≡ c.id) × (d.receiver ≡ c.receiver)
unfolding provider_control_by_ack
ack-same start_time now c ack = ground arith

module _ (e : Env) (now : Timeval) where
  pub on_whohas-PeerInv :
      (packet : Packet) (from : Sockaddr) (s : Peer)
      → PeerInv s
      → PeerInv (on_whohas e now packet from s)
  unfolding on_whohas
  on_whohas-PeerInv packet from s v =
      elim (Option-cases (malloc_ihave_packet e.blank s.has_chunks packet)) [
        | inl q ↦ rw (q, on_whohas) v
        | inr (reply, q) ↦ rw (q, on_whohas) v
      ]

  pub on_ack-PeerInv :
      (packet : Packet) (peer : Option ℕ) (s : Peer)
      → PeerInv s
      → PeerInv (on_ack e now packet peer s)
  unfolding on_ack
  on_ack-PeerInv packet peer s v =
      elim (Option-cases (search_provider_connection s.providers peer)) [
        | inl q ↦ rw (q, on_ack) v
        | inr (conn, q) ↦
            let c : Logged = record { conn = conn; log = s.log } in
            let ack = signed32 packet.header.ack_number in
            let d = provider_control_by_ack s.start_time now c ack in
            let same = ack-same s.start_time now c ack in
            let good =
              provider_control_by_ack-Inv s.start_time now c ack
                (search-Inv s.provider_id s.providers v.providers peer conn q) in
            elim (Bool-cases (d.conn.last_packet_acked == chunk_data_num)) [
              | inl f ↦
                  rw (q, f, on_ack)
                    (providers_follow v
                      (remove-ProvidersFollow s.provider_id s.providers v.providers conn))
              | inr f ↦
                  rw (q, f, on_ack)
                    (providers_follow v (
                      store-ProvidersFollow s.provider_id s.providers v.providers peer conn d.conn q
                        same.0 same.1 good))
            ]
      ]

  get_new-PeerInv :
      (packet : Packet) (peer : Option ℕ) (s : Peer)
      → PeerInv s
      → search_provider_connection s.providers peer ≡ none
      → length s.providers < s.max_provider_connection
      → PeerInv (get_new e now packet peer s)
  unfolding get_new
  get_new-PeerInv packet peer s v none_yet room =
      elim (Option-cases (
        malloc_provider_connection e.disk now e.fresh_provider s.has_chunks s.provider_id packet
          peer)) [
            | inl q ↦ rw (q, get_new) v
            | inr ((conn, loaded), q) ↦
                let made =
                  malloc_provider_connection-Inv e.disk now e.fresh_provider s.has_chunks
                    s.provider_id packet peer conn loaded q in
                rw (q, get_new)
                  (record {
                    providers =
                        Providers-cons s.provider_id s.providers v.providers conn made.0 made.1
                          (ap (search_provider_connection s.providers) made.2 ∙ none_yet);
                    provider_max = omega (arith, room);
                    receivers = v.receivers;
                    receiver_max = v.receiver_max;
                  })
          ]

  pub on_get-PeerInv :
      (packet : Packet) (peer : Option ℕ) (s : Peer)
      → PeerInv s
      → PeerInv (on_get e now packet peer s)
  unfolding on_get
  on_get-PeerInv packet peer s v =
      elim (Option-cases (search_provider_connection s.providers peer)) [
        | inr (conn, q) ↦ rw (q, on_get) v
        | inl q ↦
            elim (Bool-cases
              (leb s.max_provider_connection (get_provider_connection_number s.providers))) [
                | inl f ↦ rw (q, f, on_get) v
                | inr f ↦
                    rw (q, f, on_get)
                      (get_new-PeerInv packet peer s v q
                        (ground (arith, f, number-eq-length s.providers)))
              ]
      ]
