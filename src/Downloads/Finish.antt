-- ===== src/Downloads/Finish.antt =====
-- peer.c: the end of a round, and what is left of a job that is done.
use project_2_congest.Base.{
  ℕ, ◌≡◌, refl, sym, ap, ◌∙◌, subst, Bool-cases, Option, Option-cases, none, some, List, [], ◌∷◌,
  ◌++◌, get_elem?, set, length, ◌==◌, ◌⊎◌, inl, inr, arith,
}
use project_2_congest.Base.Int.{pos, ltb_ℤ}
use project_2_congest.Clock.{Timeval, get_time_diff}
use project_2_congest.Job.{Chunk, Job, get_not_found_chunk_number}
use project_2_congest.Store.{Jobs, chunk_at}
use project_2_congest.Store.Writes.{get_elem?-set}
use project_2_congest.Connection.{ChunkRef, ReceiverConnection}
use project_2_congest.Connection.Receiver.{Platform, get_receiver_connection_number}
use project_2_congest.Connection.Receivers.{number-eq-length, total_of}
use project_2_congest.Peer.{Peer, Env, job_of}
use project_2_congest.Peer.Flooding.{finish_job, flood_whohas, whohas_flood_interval_ms}
use project_2_congest.Peer.Round.{time_out_all, send_all, round_end}
use project_2_congest.Peer.Invariant.{PeerInv}
use project_2_congest.Downloads.{heads, waiters, down, pend}
use project_2_congest.Downloads.Cancels.{receivers_timeout-Balance}
use project_2_congest.Downloads.Packets.{ClaimedBy, flood_whohas-Claimed}
use project_2_congest.Downloads.Verified.{Verified}
use project_2_congest.Downloads.Verified.Handlers.{flood_whohas-Verified, time_out_all-Verified}

-- A chunk in a slot of its own weighs no more than nothing, once the slot is freed.
freed_lem :
    (w : Option Chunk → ℕ) (jobs : Jobs) (j : ℕ) (job : Job) (q : ChunkRef)
    → w none ≡ 0
    → get_elem? jobs j ≡ some (some job)
    → w (chunk_at jobs q) ≡ 0
    → w (chunk_at (set jobs j none) q) ≡ 0
unfolding chunk_at
freed_lem w jobs j job q z at e =
    let wrote = get_elem?-set jobs j q.job (some job) none at in
    elim (Bool-cases (j == q.job)) [
      | inl same ↦ rw (wrote, same) z
      | inr other ↦ rw (wrote, other) e
    ]

pub job_of-slot :
    (jobs : Jobs) (j : ℕ) (job : Job)
    → job_of jobs j ≡ some job
    → get_elem? jobs j ≡ some (some job)
job_of-slot jobs j job e = ground arith

no_receivers : (rs : List ReceiverConnection) → length rs ≡ 0 → rs ≡ []
no_receivers [] e = refl
no_receivers (r ∷ rs) e = absurd (omega arith)

-- With no connection left, nothing is downloaded and nothing waits.
pub idle :
    (s : Peer) (q : ChunkRef)
    → ClaimedBy s
    → get_receiver_connection_number s.receivers ≡ 0
    → (down (chunk_at s.jobs q) ≡ 0) × (pend (chunk_at s.jobs q) ≡ 0)
idle s q w e =
    let gone = no_receivers s.receivers (sym (number-eq-length s.receivers) ∙ e) in
    (
      sym (w.heads_down q) ∙ ap (total_of (heads q)) gone,
      sym (w.waiters_pend q) ∙ ap (total_of (waiters q)) gone,
    )

-- The job `index`, `job`, is done: no connection is left, no chunk is missing.
pub record Finishes (s t : Peer) : Type 0 where
  pub index : ℕ
  pub job : Job
  pub current : s.current_job ≡ some index
  pub found : job_of s.jobs index ≡ some job
  pub no_receiver : get_receiver_connection_number s.receivers ≡ 0
  pub none_missing : get_not_found_chunk_number job ≡ 0
  pub result : t ≡ record s {
    jobs = set s.jobs index none;
    current_job = none;
    got = s.got ++ (job.output_file_name ∷ []);
  }

module _ (e : Env) (now : Timeval) where
  pub finish_job-cases : (s : Peer) → (finish_job e now s ≡ s) ⊎ Finishes s (finish_job e now s)
  unfolding finish_job
  finish_job-cases s = elim (Option-cases s.current_job) [
    | inl a ↦ inl (ground (arith, a))
    | inr (j, a) ↦ elim (Bool-cases (get_receiver_connection_number s.receivers == 0)) [
      | inr b ↦ inl (ground (arith, a, b))
      | inl b ↦ elim (Option-cases (job_of s.jobs j)) [
        | inl c ↦ inl (ground (arith, a, b, c))
        | inr (job, c) ↦ elim (Bool-cases (get_not_found_chunk_number job == 0)) [
          | inr d ↦ inl (ground (arith, a, b, c, d))
          | inl d ↦ inr (record {
            index = j;
            job = job;
            current = a;
            found = c;
            no_receiver = ground (arith, b);
            none_missing = ground (arith, d);
            result = ground (arith, a, b, c, d);
          })
        ]
      ]
    ]
  ]

  pub finish_job-Claimed : (s : Peer) → ClaimedBy s → ClaimedBy (finish_job e now s)
  finish_job-Claimed s w = elim (finish_job-cases s) [
    | inl q ↦ subst ClaimedBy (sym q) w
    | inr f ↦
        let at = job_of-slot s.jobs f.index f.job f.found in
        let quiet = λ (q : ChunkRef). idle s q w f.no_receiver in
        subst ClaimedBy (sym f.result) (record {
          heads_down = λ q.
              (w.heads_down q ∙ (quiet q).0)
              ∙ sym (freed_lem down s.jobs f.index f.job q refl at (quiet q).0);
          waiters_pend = λ q.
              (w.waiters_pend q ∙ (quiet q).1)
              ∙ sym (freed_lem pend s.jobs f.index f.job q refl at (quiet q).1);
        })
  ]

  pub finish_job-Verified :
      (m : Platform) (s : Peer) → Verified m s → Verified m (finish_job e now s)
  unfolding chunk_at
  finish_job-Verified m s v = elim (finish_job-cases s) [
    | inl q ↦ subst (Verified m) (sym q) v
    | inr f ↦
        let at = job_of-slot s.jobs f.index f.job f.found in
        subst (Verified m) (sym f.result) (λ q c here.
          let wrote = get_elem?-set s.jobs f.index q.job (some f.job) none at in
          elim (Bool-cases (f.index == q.job)) [
            | inl same ↦ absurd (ground (arith, wrote, same, here))
            | inr other ↦ λ done. (
              (v q c (ground (arith, wrote, other, here)) done).0,
              λ ended. absurd (ground (arith, ended)),
            )
          ])
  ]

  pub time_out_all-Claimed : (s : Peer) → PeerInv s → ClaimedBy s → ClaimedBy (time_out_all e now s)
  time_out_all-Claimed s v w =
      let b =
        receivers_timeout-Balance e now s.next_address s.receivers s.jobs (λ q. 0) (λ q. 0)
          v.receivers
          (record {
            downs = λ q. omega (arith, w.heads_down q);
            pends = λ q. omega (arith, w.waiters_pend q);
          }) in
      record {
        heads_down = λ q. omega (arith, b.downs q);
        waiters_pend = λ q. omega (arith, b.pends q);
      }

  -- What the timeouts, the flood and the check of the job keep, a round keeps.
  pub round_end-keeps :
      (P : Peer → Type 0) (s : Peer) (last_flood_whohas_time : Timeval)
      → ((t : Peer) → P t → P (flood_whohas e now t))
      → ((t : Peer) → P t → P (finish_job e now t))
      → P (send_all e now (time_out_all e now s))
      → P (round_end e now s last_flood_whohas_time).0
  unfolding round_end
  round_end-keeps P s last_flood_whohas_time floods finishes w =
      let s' = send_all e now (time_out_all e now s) in
      elim (Bool-cases
        (ltb_ℤ (pos whohas_flood_interval_ms) (get_time_diff last_flood_whohas_time now))) [
          | inl f ↦ rw (f, round_end) (finishes (flood_whohas e now s') (floods s' w))
          | inr f ↦ rw (f, round_end) (finishes s' w)
        ]

  pub round_end-Claimed :
      (s : Peer) (last_flood_whohas_time : Timeval)
      → PeerInv s
      → ClaimedBy s
      → ClaimedBy (round_end e now s last_flood_whohas_time).0
  round_end-Claimed s last v w =
      round_end-keeps ClaimedBy s last (flood_whohas-Claimed e now) finish_job-Claimed
        (time_out_all-Claimed s v w)

  pub round_end-Verified :
      (s : Peer) (last_flood_whohas_time : Timeval)
      → Verified e.platform s
      → Verified e.platform (round_end e now s last_flood_whohas_time).0
  round_end-Verified s last v =
      round_end-keeps (Verified e.platform) s last (flood_whohas-Verified e now)
        (finish_job-Verified e.platform) (time_out_all-Verified e now s v)
