-- ===== src/Peer/Flooding.antt =====
-- peer.c: the job of a node: how it starts, how its chunks are asked for, and how it ends.
use project_2_congest.Base.{
  ℕ, suc, not, Option, none, some, List, [], ◌∷◌, ◌++◌, set, length, map, leb, ◌==◌, if◌then◌else◌,
}
use project_2_congest.Clock.{Timeval}
use project_2_congest.Config.{BtPeer}
use project_2_congest.Packet.{Packet, Datagram, to_peer, send_packet}
use project_2_congest.Job.{
  Job, malloc_all_whohas_packet, malloc_new_job, get_not_found_chunk_number,
}
use project_2_congest.Connection.Receiver.{get_receiver_connection_number}
use project_2_congest.Peer.{Peer, Env, job_of}

abbrev pub whohas_flood_interval_ms : ℕ
whohas_flood_interval_ms = 3000

module _ (e : Env) (now : Timeval) where
  open e use {blank}

  abbrev pub flood_to : List Packet → ℕ → ℕ → List BtPeer → List Datagram
  flood_to packets identity i [] = []
  flood_to packets identity i (p ∷ ps) =
      (if p.id == identity then [] else map (λ k. send_packet k (to_peer (some i))) packets)
      ++ flood_to packets identity (suc i) ps

  unfoldable pub flood_whohas : Peer → Peer
  flood_whohas s = elim s.current_job [
    | none ↦ s
    | some j ↦
        if leb s.max_receiver_connection (get_receiver_connection_number s.receivers)
        then s
        else elim (job_of s.jobs j) [
          | none ↦ s
          | some job ↦ elim (malloc_all_whohas_packet blank job) [
            | none ↦ s
            | some packets ↦ record s { sent = s.sent ++ flood_to packets s.identity 0 s.peers }
          ]
        ]
  ]

  -- `scan` and `lines` are those of `malloc_new_job`.
  unfoldable pub process_get : (List ℕ → ℕ × List ℕ) → Option (List (List ℕ)) → List ℕ → Peer → Peer
  process_get scan lines outputfile s = elim (malloc_new_job scan lines outputfile) [
    | none ↦ s
    | some job ↦
        flood_whohas
          (record s { jobs = s.jobs ++ (some job ∷ []); current_job = some (length s.jobs) })
  ]

  abbrev pub finished_job : Peer → ℕ → Job → Peer
  finished_job s j job =
      if get_not_found_chunk_number job == 0
      then record s {
        jobs = set s.jobs j none;
        current_job = none;
        got = s.got ++ (job.output_file_name ∷ []);
      }
      else s

  unfoldable pub finish_job : Peer → Peer
  finish_job s = elim s.current_job [
    | none ↦ s
    | some j ↦
        if not (get_receiver_connection_number s.receivers == 0)
        then s
        else elim (job_of s.jobs j) [ none ↦ s | some job ↦ finished_job s j job ]
  ]
