-- ===== src/Dataset/Content/Threads.antt =====
-- The thread backend serves the stream as `Serves` asks, over files that are read whole.
use forge_dsio.Prelude.{
  ℕ, ◌+◌, ltb, Bool-cases, ◌≡◌, inl, inr, refl, sym, ap, ◌∙◌, subst, Option, none, some, List, [],
  ◌∷◌, ◌++◌, map, length, Outcome, ok, err, arith,
}
use forge_dsio.Error.{Error, stream_reaped_nothing}
use forge_dsio.Os.{Os}
use forge_dsio.File.{Bytes}
use forge_dsio.Backend.{ReadRequest, Completion, BackendOps}
use forge_dsio.Backend.Thread.{Task, ThreadBackend, enqueue, submit, reap, in_flight}
use forge_dsio.Backend.Thread.Queue.{requests_of, submit_lem}
use forge_dsio.Dataset.Content.{Serves, Answers}
use forge_dsio.Dataset.Content.Workers.{ReadsWhole, Given, HandsOut, reap-HandsOut}

-- A thread backend over a file that is read whole, whose workers have stored answers.
pub record Serving {W : Type 0} (os : Os W) : Type 0 where
  pub backend : ThreadBackend
  pub file : Bytes
  pub whole : ReadsWhole os backend.fd file
  pub given : Given file backend.pending

Given-append :
    (content : Bytes) (ts : List Task) (rs : List ReadRequest)
    → Given content ts
    → Given content (ts ++ map enqueue rs)
Given-append content [] [] g = tt
Given-append content [] (r ∷ rs) g =
    (λ c q. absurd (ground (arith, q)), Given-append content [] rs tt)
Given-append content (t ∷ ts) rs g = (g.0, Given-append content ts rs g.1)

pub submit-Given :
    (content : Bytes) (rs : List ReadRequest) (b : ThreadBackend)
    → Given content b.pending
    → Given content (submit rs b).1.pending × ((submit rs b).1.fd ≡ b.fd)
unfolding submit
submit-Given content rs b g = elim (Bool-cases (ltb b.depth (length b.pending + length rs))) [
  | inl full ↦ rw (submit, full) (g, refl)
  | inr fits ↦ rw (submit, fits) (Given-append content b.pending rs g, refl)
]

submit-requests_of :
    (rs : List ReadRequest) (b : ThreadBackend)
    → (submit rs b).0 ≡ ok tt
    → requests_of (submit rs b).1.pending ≡ requests_of b.pending ++ rs
submit-requests_of rs b q = elim (submit_lem rs b) [
  | inl (room, works, queued, fits) ↦ queued
  | inr (full, refused) ↦
      absurd (ground (arith, ap (λ (x : Outcome Error (Unit {0}) × ThreadBackend). x.0) refused, q))
]

module _ {W : Type 0} (os : Os W) (rounds : ℕ) where
  -- Where the retries are used up there is no completion.
  abbrev pub handed :
      (s : Serving os) (room : ℕ) (w : W)
      (o : Option (Outcome Error (List Completion) × ThreadBackend × W))
      → HandsOut os rounds s.backend.fd s.file s.whole room s.backend.pending o
      → Outcome Error (List Completion) × Serving os × W
  handed s room w none h = (err stream_reaped_nothing, s, w)
  handed s room w (some (err e, b, v)) h = absurd h
  handed s room w (some (ok cs, b, v)) h = (
    ok cs,
    record {
      backend = b;
      file = s.file;
      whole = subst (λ x. ReadsWhole os x s.file) (sym h.1) s.whole;
      given = h.0;
    },
    v,
  )

  -- The operations of the thread backend, for the stream.
  abbrev pub thread_ops : BackendOps (Serving os) W
  thread_ops = record {
    in_flight = λ s. in_flight s.backend;
    submit = λ rs s w.
        let kept = submit-Given s.file rs s.backend s.given in
        (
          (submit rs s.backend).0,
          record {
            backend = (submit rs s.backend).1;
            file = s.file;
            whole = subst (λ x. ReadsWhole os x s.file) (sym kept.1) s.whole;
            given = kept.0;
          },
          w,
        );
    reap = λ room least s w.
        handed s room w (reap os rounds s.backend.fd room least s.backend w)
          (reap-HandsOut os rounds s.backend.fd s.file s.whole room least s.backend w refl s.given);
  }

  abbrev ReapResult : Type 0
  ReapResult = Outcome Error (List Completion) × Serving os × W

  abbrev first_of : Completion → Outcome Error (List Completion) → Completion
  first_of d (ok (c ∷ _)) = c
  first_of d _ = d

  handed_lem :
      (s s' : Serving os) (w w' : W) (c : Completion) (more : List Completion)
      (o : Option (Outcome Error (List Completion) × ThreadBackend × W))
      (h : HandsOut os rounds s.backend.fd s.file s.whole 1 s.backend.pending o)
      → handed s 1 w o h ≡ (ok (c ∷ more), s', w')
      → (r : ReadRequest) × (xs : List ReadRequest) × (ys : List ReadRequest) × (requests_of
            s.backend.pending
          ≡ xs ++ r ∷ ys)
        × (requests_of s'.backend.pending ≡ xs ++ ys)
        × (s'.file ≡ s.file)
        × Answers s.file r c
  handed_lem s s' w w' c more none h q = absurd (ground (arith, ap (λ (x : ReapResult). x.0) q))
  handed_lem s s' w w' c more (some (err e, b, v)) h q = absurd h
  handed_lem s s' w w' c more (some (ok [], b, v)) h q =
      absurd (ground (arith, ap (λ (x : ReapResult). x.0) q))
  handed_lem s s' w w' c more (some (ok (d ∷ ds), b, v)) h q =
      let (r, oldest, a) = h.2 refl in
      (
        r,
        [],
        requests_of b.pending,
        oldest,
        sym (ap (λ (x : ReapResult). requests_of x.1.backend.pending) q),
        sym (ap (λ (x : ReapResult). x.1.file) q),
        subst (Answers s.file r) (ap (λ (x : ReapResult). first_of d x.0) q) a,
      )

  pub thread_ops-Serves : Serves thread_ops
  thread_ops-Serves = record {
    flying = λ s. requests_of s.backend.pending;
    content = λ s. s.file;
    on_submit = λ rs s s' w w' q. (
      sym (
            ap (λ (x : Outcome Error (Unit {0}) × Serving os × W). requests_of x.1.backend.pending)
              q)
          ∙ submit-requests_of rs s.backend
              (ap (λ (x : Outcome Error (Unit {0}) × Serving os × W). x.0) q),
      sym (ap (λ (x : Outcome Error (Unit {0}) × Serving os × W). x.1.file) q),
    );
    on_reap = λ s s' w w' c more q.
        handed_lem s s' w w' c more (reap os rounds s.backend.fd 1 1 s.backend w)
          (reap-HandsOut os rounds s.backend.fd s.file s.whole 1 1 s.backend w refl s.given) q;
  }
