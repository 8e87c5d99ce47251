-- ===== src/Peer/Round.antt =====
-- control.c and peer.c: what the loop of `peer_run` does after the events of a round, driven by
-- time. A loop along a list of connections is a recursion on the list: where the source frees the
-- node that it stands on and then follows its link, the model goes on with the next one.
use project_2_congest.Base.{ℕ, none, some, List, [], ◌∷◌, ◌++◌, get_elem?, if◌then◌else◌}
use project_2_congest.Base.Int.{pos, ltb_ℤ}
use project_2_congest.Clock.{Timeval, get_time_diff}
use project_2_congest.Packet.{Datagram}
use project_2_congest.Job.{Chunk}
use project_2_congest.Store.{Jobs}
use project_2_congest.Connection.{
  ProviderConnection, ReceiverConnection, pending_data, received_data,
}
use project_2_congest.Connection.Provider.{send_data_packet, sender_after, data_sent}
use project_2_congest.Connection.Receiver.{
  Claim, Started, start_connection, cancel_receiver_connection, bytes_of,
}
use project_2_congest.Control.{
  LogEntry, provider_control_by_timeout, peer_crash_timeout, get_timeout,
}
use project_2_congest.Peer.{Peer, Env}
use project_2_congest.Peer.Flooding.{flood_whohas, finish_job, whohas_flood_interval_ms}

-- The providers that are left, and the log.
pub record Providers : Type 0 where
  pub providers : List ProviderConnection
  pub log : List LogEntry

-- The receivers that are left, the jobs, and the packets that were sent.
pub record Receivers : Type 0 where
  pub receivers : List ReceiverConnection
  pub jobs : Jobs
  pub sent : List Datagram

-- What a timeout does to a receiver connection.
pub data Timeout : Type 0 where
  cancelled : Jobs → Timeout
  kept : Started → Timeout

abbrev pub chunk_data_of : List Chunk → ProviderConnection → List ℕ
chunk_data_of has_chunks p = elim (get_elem? has_chunks p.chunk) [
  | none ↦ []
  | some c ↦ bytes_of c.chunk_data
]

module _ (e : Env) (now : Timeval) where
  open e use {blank}

  unfoldable pub providers_timeout : Timeval → List ProviderConnection → List LogEntry → Providers
  providers_timeout start_time [] log = record { providers = []; log = log }
  providers_timeout start_time (p ∷ ps) log =
      elim (provider_control_by_timeout start_time now (record { conn = p; log = log })) [
        | none ↦ providers_timeout start_time ps log
        | some c ↦
            let rest = providers_timeout start_time ps c.log in
            record rest { providers = c.conn ∷ rest.providers }
      ]

  unfoldable pub receiver_control_by_timeout : Claim → Timeout
  receiver_control_by_timeout s = elim s.conn.status [
    | pending_data ↦
        if ltb_ℤ (pos peer_crash_timeout) (get_time_diff s.conn.start_time now)
        then cancelled (cancel_receiver_connection s.conn s.jobs)
        else if ltb_ℤ (pos get_timeout) (get_time_diff s.conn.last_get_time now)
        then kept (start_connection blank now s)
        else kept (record { claim = s; sent = [] })
    | received_data ↦
        if ltb_ℤ (pos peer_crash_timeout) (get_time_diff s.conn.last_data_time now)
        then cancelled (cancel_receiver_connection s.conn s.jobs)
        else kept (record { claim = s; sent = [] })
  ]

  unfoldable pub receivers_timeout : List ReceiverConnection → Jobs → Receivers
  receivers_timeout [] jobs = record { receivers = []; jobs = jobs; sent = [] }
  receivers_timeout (r ∷ rs) jobs =
      elim (receiver_control_by_timeout (record { jobs = jobs; conn = r })) [
        | cancelled jobs' ↦ receivers_timeout rs jobs'
        | kept started ↦
            let rest = receivers_timeout rs started.claim.jobs in
            record rest {
              receivers = started.claim.conn ∷ rest.receivers;
              sent = started.sent ++ rest.sent;
            }
      ]

  unfoldable pub all_provider_connection_send_data :
      List Chunk
      → List ProviderConnection
      → record { providers : List ProviderConnection; sent : List Datagram }
  all_provider_connection_send_data has_chunks [] = record { providers = []; sent = [] }
  all_provider_connection_send_data has_chunks (p ∷ ps) =
      let sending = send_data_packet blank now (chunk_data_of has_chunks p) p in
      let rest = all_provider_connection_send_data has_chunks ps in
      record {
        providers = sender_after p sending ∷ rest.providers;
        sent = data_sent p sending ++ rest.sent;
      }

  abbrev pub time_out_all : Peer → Peer
  time_out_all s =
      let p = providers_timeout s.start_time s.providers s.log in
      let r = receivers_timeout s.receivers s.jobs in
      record s {
        providers = p.providers;
        log = p.log;
        receivers = r.receivers;
        jobs = r.jobs;
        sent = s.sent ++ r.sent;
      }

  abbrev pub send_all : Peer → Peer
  send_all s =
      let r = all_provider_connection_send_data s.has_chunks s.providers in
      record s { providers = r.providers; sent = s.sent ++ r.sent }

  -- The part of the loop of `peer_run` behind the `select`, with the time of the last flood.
  unfoldable pub round_end : Peer → Timeval → Peer × Timeval
  round_end s last_flood_whohas_time =
      let s' = send_all (time_out_all s) in
      if ltb_ℤ (pos whohas_flood_interval_ms) (get_time_diff last_flood_whohas_time now)
      then (finish_job e now (flood_whohas e now s'), now)
      else (finish_job e now s', last_flood_whohas_time)
