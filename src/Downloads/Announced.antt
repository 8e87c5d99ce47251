-- ===== src/Downloads/Announced.antt =====
-- peer.c: the files that are announced, from the command on that asks for one to the end of its job.
use mathlib.Core.List.{Memᴰ, append-nil, append_assoc}
use project_2_congest.Base.{
  ℕ, ◌≡◌, sym, ap, ◌∙◌, subst, Option, Option-cases, none, some, List, [], ◌∷◌, ◌++◌, get_elem?,
  length, inl, inr, ◌⊎◌, arith,
}
use project_2_congest.Clock.{Timeval}
use project_2_congest.Packet.{Packet, Sockaddr}
use project_2_congest.Job.{Job, malloc_new_job}
use project_2_congest.Peer.{Peer, Env}
use project_2_congest.Peer.Flooding.{process_get, flood_whohas, finish_job}
use project_2_congest.Peer.Loop.{Command, handle_user_input, handle_all, receive, list_cases}
use project_2_congest.Downloads.Verified.{IsWritten, Verified}
use project_2_congest.Downloads.Packets.{ClaimedBy}
use project_2_congest.Downloads.Steady.{Outline, Steady, outline, outline_of, get_elem?-outlines}
use project_2_congest.Downloads.Steady.Handlers.{process_inbound_udp-Steady, flood_whohas-Steady}
use project_2_congest.Downloads.Finish.{Finishes, finish_job-cases, job_of-slot}
use project_2_congest.Downloads.Asked.{
  JobsAsked, IsGot, AllGot, Asked-more, IsGot-more, started-JobsAsked, freed-JobsAsked, alike,
}
use project_2_congest.Downloads.Outcome.{finished-IsWritten}

got_cases :
    (got : List (List ℕ)) (last name : List ℕ)
    → Memᴰ name (got ++ (last ∷ []))
    → Memᴰ name got ⊎ (last ≡ name)
got_cases [] last name (Memᴰ.head e) = inr (sym e)
got_cases [] last name (Memᴰ.tail m) = elim m [ ]
got_cases (x ∷ xs) last name (Memᴰ.head e) = inl (Memᴰ.head e)
got_cases (x ∷ xs) last name (Memᴰ.tail m) = elim (got_cases xs last name m) [
  | inl h ↦ inl (Memᴰ.tail h)
  | inr e ↦ inr e
]

module _ (e : Env) (scan : List ℕ → ℕ × List ℕ) where
  -- The jobs were asked for, and what was announced was got.
  pub record Announced (cs : List Command) (s : Peer) : Type 0 where
    pub jobs_asked : JobsAsked scan cs s.jobs
    pub all_got : AllGot scan e.platform cs s.writes s.got

  pub Announced-Steady :
      (cs : List Command) (t s : Peer) → Steady t s → Announced cs s → Announced cs t
  Announced-Steady cs t s h a = record {
    jobs_asked = λ j o at. a.jobs_asked j o (ap (λ os. get_elem? os j) (sym h.0) ∙ at);
    all_got = λ name m.
        let before = subst (λ (got : List (List ℕ)). Memᴰ name got) h.2 m in
        let (more, writes) = h.3 in
        let got = IsGot-more scan e.platform cs [] s.writes more name (a.all_got name before) in
        subst (λ ds. IsGot scan e.platform ds t.writes name) (append-nil cs)
          (subst (λ ws. IsGot scan e.platform (cs ++ []) ws name) (sym writes) got);
  }

  pub Announced-more :
      (cs more : List Command) (s : Peer) → Announced cs s → Announced (cs ++ more) s
  Announced-more cs more s a = record {
    jobs_asked = λ j o at. Asked-more scan cs more o (a.jobs_asked j o at);
    all_got = λ name m.
        subst (λ ws. IsGot scan e.platform (cs ++ more) ws name) (append-nil s.writes)
          (IsGot-more scan e.platform cs more s.writes [] name (a.all_got name m));
  }

  started-Announced :
      (now : Timeval) (cs : List Command) (c : Command) (job : Job) (s : Peer)
      → malloc_new_job scan c.chunk_lines c.outf ≡ some job
      → Announced cs s
      → Announced (cs ++ (c ∷ [])) (
          flood_whohas e now
            (record s { jobs = s.jobs ++ (some job ∷ []); current_job = some (length s.jobs) }))
  started-Announced now cs c job s q a =
      let started = record s {
        jobs = s.jobs ++ (some job ∷ []);
        current_job = some (length s.jobs);
      } in
      Announced-Steady (cs ++ (c ∷ [])) (flood_whohas e now started) started
        (flood_whohas-Steady e now started)
        (record {
          jobs_asked = started-JobsAsked scan cs c s.jobs job q a.jobs_asked;
          all_got = (Announced-more cs (c ∷ []) s a).all_got;
        })

  handle_user_input-Announced :
      (now : Timeval) (cs : List Command) (c : Command) (s : Peer)
      → Announced cs s
      → Announced (cs ++ (c ∷ [])) (handle_user_input e scan now c s)
  unfolding handle_user_input process_get
  handle_user_input-Announced now cs c s a = elim (list_cases c.outf) [
    | inl q ↦
        subst (Announced (cs ++ (c ∷ []))) (ground (arith, q)) (Announced-more cs (c ∷ []) s a)
    | inr (x, xs, q) ↦ elim (Option-cases (malloc_new_job scan c.chunk_lines c.outf)) [
      | inl f ↦
          subst (Announced (cs ++ (c ∷ []))) (ground (arith, q, f)) (Announced-more cs (c ∷ []) s a)
      | inr (job, f) ↦
          subst (Announced (cs ++ (c ∷ []))) (ground (arith, q, f))
            (started-Announced now cs c job s f a)
    ]
  ]

  pub handle_all-Announced :
      (now : Timeval) (cs news : List Command) (s : Peer)
      → Announced cs s
      → Announced (cs ++ news) (handle_all e scan now news s)
  unfolding handle_all
  handle_all-Announced now cs [] s a = Announced-more cs [] s a
  handle_all-Announced now cs (c ∷ news) s a =
      subst (λ ds. Announced ds (handle_all e scan now (c ∷ news) s))
        (append_assoc cs (c ∷ []) news)
        (handle_all-Announced now (cs ++ (c ∷ [])) news (handle_user_input e scan now c s)
          (handle_user_input-Announced now cs c s a))

  pub receive-Announced :
      (now : Timeval) (cs : List Command) (o : Option (Packet × Sockaddr)) (s : Peer)
      → Announced cs s
      → Announced cs (receive e scan now o s)
  receive-Announced now cs none s a = a
  receive-Announced now cs (some (received, from)) s a =
      Announced-Steady cs (receive e scan now (some (received, from)) s) s
        (process_inbound_udp-Steady e now received from s) a

  -- The file of a job that ends was asked for and is written.
  finished-IsGot :
      (cs : List Command) (s t : Peer)
      → ClaimedBy s
      → Verified e.platform s
      → JobsAsked scan cs s.jobs
      → (d : Finishes s t) → IsGot scan e.platform cs s.writes d.job.output_file_name
  finished-IsGot cs s t claimed verified asked d =
      let at = job_of-slot s.jobs d.index d.job d.found in
      let outlined =
        get_elem?-outlines s.jobs d.index
        ∙ ap (λ o. elim o [ none ↦ none | some slot ↦ some (outline_of slot) ]) at in
      let a = asked d.index (outline d.job) outlined in
      record {
        command = a.command;
        is_one = a.is_one;
        job = a.job;
        made = a.made;
        named = ap (λ (o : Outline). o.0) a.same;
        whole = λ i c here.
            let (k, there, same) = alike a.job d.job i c a.same here in
            let w = finished-IsWritten e.platform s t claimed verified d i k there in
            subst
              (λ (l : ℕ × List ℕ).
                (w : IsWritten e.platform s.writes l.0 l.1) × (w.write.file_name
                  ≡ d.job.output_file_name))
              same w;
      }

  pub finish_job-Announced :
      (now : Timeval) (cs : List Command) (s : Peer)
      → ClaimedBy s
      → Verified e.platform s
      → Announced cs s
      → Announced cs (finish_job e now s)
  finish_job-Announced now cs s claimed verified a = elim (finish_job-cases e now s) [
    | inl q ↦ subst (Announced cs) (sym q) a
    | inr d ↦ subst (Announced cs) (sym d.result) (record {
      jobs_asked = freed-JobsAsked scan cs s.jobs d.index a.jobs_asked;
      all_got = λ name m. elim (got_cases s.got d.job.output_file_name name m) [
        | inl old ↦ a.all_got name old
        | inr same ↦
            subst (IsGot scan e.platform cs s.writes) same
              (finished-IsGot cs s (finish_job e now s) claimed verified a.jobs_asked d)
      ];
    })
  ]
