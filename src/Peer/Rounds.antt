-- ===== src/Peer/Rounds.antt =====
-- peer.c: a round of the loop of `peer_run` keeps the lists of connections in order.
use project_2_congest.Base.{
  subst, sym, ℕ, ◌≡◌, refl, ◌∙◌, some, List, [], ◌∷◌, Option-cases, Bool-cases, inl, inr, ◌⊎◌,
  arith,
}
use project_2_congest.Base.Int.{pos, ltb_ℤ}
use project_2_congest.Clock.{Timeval, get_time_diff}
use project_2_congest.Packet.{Packet, Sockaddr}
use project_2_congest.Job.{Chunk}
use project_2_congest.Store.{Jobs}
use project_2_congest.Connection.{ProviderConnection, ReceiverConnection}
use project_2_congest.Connection.Provider.{send_data_packet, after_send, sender_after}
use project_2_congest.Connection.Receiver.{Claim, Started, start_connection}
use project_2_congest.Connection.Table.{nil, keep, leave}
use project_2_congest.Connection.Providers.{Providers, ProvidersFollow}
use project_2_congest.Connection.Receivers.{Receivers, ReceiversFollow}
use project_2_congest.Connection.Sending.{send_data_packet-Inv}
use project_2_congest.Control.{Logged, LogEntry, provider_control_by_timeout}
use project_2_congest.Control.Invariant.{provider_control_by_timeout-Inv}
use project_2_congest.Peer.{Peer, Env, process_inbound_udp}
use project_2_congest.Peer.Flooding.{flood_whohas, finish_job, whohas_flood_interval_ms}
use project_2_congest.Peer.Dispatch.{process_inbound_udp-keeps}
use project_2_congest.Peer.Round.{
  Timeout, cancelled, kept, providers_timeout, receiver_control_by_timeout, receivers_timeout,
  all_provider_connection_send_data, chunk_data_of, time_out_all, send_all, round_end,
}
use project_2_congest.Peer.Invariant.{ListsInv, lists, PeerInv, providers_follow, receivers_follow}
use project_2_congest.Peer.Serving.{on_whohas-PeerInv, on_get-PeerInv, on_ack-PeerInv}
use project_2_congest.Peer.Downloading.{on_ihave-PeerInv, on_data-PeerInv}

timeout-same :
    (start_time now : Timeval) (c d : Logged)
    → provider_control_by_timeout start_time now c ≡ some d
    → (d.id ≡ c.id) × (d.receiver ≡ c.receiver)
unfolding provider_control_by_timeout
timeout-same start_time now c d e = ground arith

sending-same :
    (blank chunk_data : List ℕ) (now : Timeval) (p : ProviderConnection)
    → let q = sender_after p (send_data_packet blank now chunk_data p) in
      (q.id ≡ p.id) × (q.receiver ≡ p.receiver)
unfolding send_data_packet after_send
sending-same blank chunk_data now p = ground arith

module _ (e : Env) (now : Timeval) where
  providers_timeout-ProvidersFollow :
      (bound : ℕ) (start_time : Timeval) (ps : List ProviderConnection) (log : List LogEntry)
      → Providers bound ps
      → ProvidersFollow (providers_timeout e now start_time ps log).providers ps
  unfolding providers_timeout
  providers_timeout-ProvidersFollow bound start_time [] log t = nil
  providers_timeout-ProvidersFollow bound start_time (p ∷ ps) log t =
      let c : Logged = record { conn = p; log = log } in
      elim (Option-cases (provider_control_by_timeout start_time now c)) [
        | inl q ↦
            rw (q, providers_timeout)
              (leave (providers_timeout-ProvidersFollow bound start_time ps log t.2))
        | inr (d, q) ↦
            let same = timeout-same start_time now c d q in
            rw (q, providers_timeout)
              (keep same.0 same.1 (provider_control_by_timeout-Inv start_time now c d t.0.0 q)
                (providers_timeout-ProvidersFollow bound start_time ps d.log t.2))
      ]

  sending-ProvidersFollow :
      (bound : ℕ) (has_chunks : List Chunk) (ps : List ProviderConnection)
      → Providers bound ps
      → ProvidersFollow (all_provider_connection_send_data e now has_chunks ps).providers ps
  unfolding all_provider_connection_send_data
  sending-ProvidersFollow bound has_chunks [] t = nil
  sending-ProvidersFollow bound has_chunks (p ∷ ps) t =
      let same = sending-same e.blank (chunk_data_of has_chunks p) now p in
      keep same.0 same.1 (send_data_packet-Inv e.blank (chunk_data_of has_chunks p) now p t.0.0)
        (sending-ProvidersFollow bound has_chunks ps t.2)

  timeout_cases :
      (t : Timeout) → ((jobs : Jobs) × (t ≡ cancelled jobs)) ⊎ ((s : Started) × (t ≡ kept s))
  timeout_cases (cancelled jobs) = inl (jobs, refl)
  timeout_cases (kept s) = inr (s, refl)

  receiver_timeout-same :
      (s : Claim) (started : Started)
      → receiver_control_by_timeout e now s ≡ kept started
      → (started.claim.conn.address ≡ s.conn.address)
        × (started.claim.conn.provider ≡ s.conn.provider)
        × (started.claim.conn.chunk_list ≡ s.conn.chunk_list)
  unfolding receiver_control_by_timeout start_connection
  receiver_timeout-same s started q = ground arith

  receivers_timeout-ReceiversFollow :
      (bound : ℕ) (rs : List ReceiverConnection) (jobs : Jobs)
      → Receivers bound rs
      → ReceiversFollow (receivers_timeout e now rs jobs).receivers rs
  unfolding receivers_timeout
  receivers_timeout-ReceiversFollow bound [] jobs t = nil
  receivers_timeout-ReceiversFollow bound (r ∷ rs) jobs t =
      let c : Claim = record { jobs = jobs; conn = r } in
      elim (timeout_cases (receiver_control_by_timeout e now c)) [
        | inl (jobs', q) ↦
            rw (q, receivers_timeout) (leave (receivers_timeout-ReceiversFollow bound rs jobs' t.2))
        | inr (started, q) ↦
            let same = receiver_timeout-same c started q in
            rw (q, receivers_timeout)
              (keep same.0 same.1 (rw same.2 t.0.0)
                (receivers_timeout-ReceiversFollow bound rs started.claim.jobs t.2))
      ]

  pub time_out_all-PeerInv : (s : Peer) → PeerInv s → PeerInv (time_out_all e now s)
  time_out_all-PeerInv s v =
      receivers_follow
        (providers_follow v (
          providers_timeout-ProvidersFollow s.provider_id s.start_time s.providers s.log
            v.providers))
        (receivers_timeout-ReceiversFollow s.next_address s.receivers s.jobs v.receivers)

  pub send_all-PeerInv : (s : Peer) → PeerInv s → PeerInv (send_all e now s)
  send_all-PeerInv s v =
      providers_follow v
        (sending-ProvidersFollow s.provider_id s.has_chunks s.providers v.providers)

  pub flood_whohas-same : (s : Peer) → lists (flood_whohas e now s) ≡ lists s
  unfolding flood_whohas
  flood_whohas-same s = ground arith

  finish_job-same : (s : Peer) → lists (finish_job e now s) ≡ lists s
  unfolding finish_job
  finish_job-same s = ground arith

  -- If the connections of a node are in order, each with a window or a list of chunks as it should be,
  -- with a peer of its own and no more of them than allowed, they are so after the timeouts, the
  -- sending, the flooding and the check of the job at the end of a round.
  pub round_end-PeerInv :
      (s : Peer) (last_flood_whohas_time : Timeval)
      → PeerInv s
      → PeerInv (round_end e now s last_flood_whohas_time).0
  unfolding round_end
  round_end-PeerInv s last_flood_whohas_time v =
      let s' = send_all e now (time_out_all e now s) in
      let v' = send_all-PeerInv (time_out_all e now s) (time_out_all-PeerInv s v) in
      elim (Bool-cases
        (ltb_ℤ (pos whohas_flood_interval_ms) (get_time_diff last_flood_whohas_time now))) [
          | inl f ↦
              rw (f, round_end)
                (subst ListsInv
                  (sym (finish_job-same (flood_whohas e now s') ∙ flood_whohas-same s')) v')
          | inr f ↦ rw (f, round_end) (subst ListsInv (sym (finish_job-same s')) v')
        ]

  -- If the connections of a node are in order, each with a window or a list of chunks as it should be,
  -- with a peer of its own and no more of them than allowed, they are so after any packet from any
  -- address.
  pub process_inbound_udp-PeerInv :
      (received : Packet) (from : Sockaddr) (s : Peer)
      → PeerInv s
      → PeerInv (process_inbound_udp e now received from s)
  process_inbound_udp-PeerInv received from s v =
      process_inbound_udp-keeps e now from s PeerInv
        (record {
          whohas = λ packet. on_whohas-PeerInv e now packet from s v;
          ihave = λ packet peer. on_ihave-PeerInv e now packet peer s v;
          get = λ packet peer. on_get-PeerInv e now packet peer s v;
          arrived = λ packet peer. on_data-PeerInv e now packet from peer s v;
          ack = λ packet peer. on_ack-PeerInv e now packet peer s v;
          ignored = v;
        })
        received
