-- ===== src/Dataset/Content/Workers.antt =====
-- The workers of the thread backend over a file that is read whole: what they store and what is
-- handed out.
use mathlib.Core.Option.{some-injective}
use forge_dsio.Prelude.{
  ℕ, zero, suc, ◌==◌, ◌≡◌, ◌≢◌, refl, sym, ap, ap₂, ◌∙◌, subst, Bool, true, false, min, Option,
  none, some, if◌then◌else◌, List, [], ◌∷◌, length, take, drop, length-take, length-drop, Outcome,
  ok, err, ◌>>=◌, arith,
}
use forge_dsio.Error.{Error}
use forge_dsio.Os.{Os, Sys, done, failed, eintr}
use forge_dsio.Os.Retry.{settle, retry}
use forge_dsio.File.{Bytes}
use forge_dsio.Backend.{ReadRequest, Completion}
use forge_dsio.Backend.Thread.{
  Task, ThreadBackend, completion, drain, drain_front, read_once, wait, wait_oldest, reap,
}
use forge_dsio.Backend.Thread.Queue.{requests_of}
use forge_dsio.Dataset.Content.{Answers}

-- pread(2) of this descriptor gives all bytes that are there, and an `errno` where it fails.
pub record ReadsWhole {W : Type 0} (os : Os W) (fd : ℕ) (content : Bytes) : Type 0 where
  pub reads :
      (offset count : ℕ) (w : W) (bytes : Bytes)
      → (os.sys_pread fd offset count w).0 ≡ done bytes
      → bytes ≡ take count (drop offset content)
  pub fails :
      (offset count : ℕ) (w : W) (code : ℕ)
      → (os.sys_pread fd offset count w).0 ≡ failed code
      → code ≢ 0

-- What the workers have stored are answers.
abbrev pub Given : Bytes → List Task → Type 0
Given content [] = Unit
Given content (t ∷ ts) =
    ((c : Completion) → t.result ≡ some c → Answers content t.request c) × Given content ts

module _ {W : Type 0} {A : Type 0} (call : W → Sys A × W) where
  abbrev IsCall : Sys A × W → Type 0
  IsCall x = (u : W) × (call u ≡ x)

  settle-IsCall :
      (w : W) (r : Sys A × W) (again : Option (Sys A × W)) (x : Sys A × W)
      → call w ≡ r
      → (again ≡ some x → IsCall x)
      → settle r again ≡ some x
      → IsCall x
  unfolding settle
  settle-IsCall w (done a, v) again x e ih q = (w, e ∙ some-injective _ _ q)
  settle-IsCall w (failed code, v) again x e ih q = tested (code == eintr) q
    where
      tested : (b : Bool) → (if b then again else some (failed code, v)) ≡ some x → IsCall x
      tested true p = ih p
      tested false p = (w, e ∙ some-injective _ _ p)

  -- What the retries end with is the result of a call.
  retry-IsCall : (rounds : ℕ) (w : W) (x : Sys A × W) → retry rounds call w ≡ some x → IsCall x
  unfolding retry
  retry-IsCall zero w x q = absurd (ground (arith, q))
  retry-IsCall (suc rounds) w x q =
      settle-IsCall w (call w) (retry rounds call (call w).1) x refl
        (retry-IsCall rounds (call w).1 x) q

module _ {W : Type 0} (os : Os W) (rounds : ℕ) (fd : ℕ) (content : Bytes)
    (whole : ReadsWhole os fd content) where
  completion-Answers :
      (request : ReadRequest) (w : W) (r : Sys Bytes)
      → (os.sys_pread fd request.offset request.size w).0 ≡ r
      → Answers content request (completion request r)
  unfolding completion
  completion-Answers request w (failed code) e =
      let errno = whole.fails request.offset request.size w code e in
      record { token = refl; bytes = λ z. absurd (errno z); landed = λ z. absurd (errno z) }
  completion-Answers request w (done got) e =
      let all = whole.reads request.offset request.size w got e in
      record {
        token = refl;
        bytes = λ _. omega (
          arith,
          ap length all,
          length-take request.size (drop request.offset content),
          length-drop request.offset content,
        );
        landed = λ _. all;
      }

  read_once-Answers :
      (request : ReadRequest) (w : W) (c : Completion) (v : W)
      → read_once os rounds fd request w ≡ some (c, v)
      → Answers content request c
  unfolding read_once
  read_once-Answers request w c v q =
      finished (retry rounds (os.sys_pread fd request.offset request.size) w) refl q
    where
      finished :
          (o : Option (Sys Bytes × W))
          → retry rounds (os.sys_pread fd request.offset request.size) w ≡ o
          → ◌>>=◌ {B = Completion × W} o (λ r. some (completion request r.0, r.1)) ≡ some (c, v)
          → Answers content request c
      finished none e p = absurd (ground (arith, p))
      finished (some x) e p =
          let (u, called) =
            retry-IsCall (os.sys_pread fd request.offset request.size) rounds w x e in
          subst (Answers content request) (ap (λ (y : Completion × W). y.0) (some-injective _ _ p))
            (completion-Answers request u x.0 (ap (λ (y : Sys Bytes × W). y.0) called))

  -- A task that was waited for.
  wait-Given :
      (t t' : Task) (w v : W)
      → wait os rounds fd t w ≡ some (t', v)
      → ((c : Completion) → t.result ≡ some c → Answers content t.request c)
      → (t'.request ≡ t.request)
        × ((c : Completion) → t'.result ≡ some c → Answers content t'.request c)
  unfolding wait
  wait-Given t t' w v q h = stored t.result refl q
    where
      same : (u : Task) (x : W) → ◌≡◌ {A = Option (Task × W)} (some (u, x)) (some (t', v)) → u ≡ t'
      same u x p = ap (λ (y : Task × W). y.0) (some-injective _ _ p)

      once :
          (o : Option (Completion × W))
          → read_once os rounds fd t.request w ≡ o
          → ◌>>=◌ {B = Task × W} o (λ r. some (record t { result = some r.0 }, r.1)) ≡ some (t', v)
          → (t'.request ≡ t.request)
            × ((c : Completion) → t'.result ≡ some c → Answers content t'.request c)
      once none e p = absurd (ground (arith, p))
      once (some (c, x)) e p =
          subst
            (λ (u : Task).
              (u.request ≡ t.request)
              × ((d : Completion) → u.result ≡ some d → Answers content u.request d))
            (same (record t { result = some c }) x p)
            (
              refl,
              λ d r.
                  subst (Answers content t.request) (some-injective _ _ r)
                    (read_once-Answers t.request w c x e),
            )

      stored :
          (o : Option Completion)
          → t.result ≡ o
          → ◌≡◌ {A = Option (Task × W)}
              (elim o [
                | some c ↦ some (t, w)
                | none ↦ do
                  r ← read_once os rounds fd t.request w
                  some (record t { result = some r.0 }, r.1)
              ])
              (some (t', v))
          → (t'.request ≡ t.request)
            × ((c : Completion) → t'.result ≡ some c → Answers content t'.request c)
      stored none e p = once (read_once os rounds fd t.request w) refl p
      stored (some c) e p =
          subst
            (λ (u : Task).
              (u.request ≡ t.request)
              × ((d : Completion) → u.result ≡ some d → Answers content u.request d))
            (same t w p) (refl, h)

  abbrev IsKept : List Task → Option (List Task × W) → Type 0
  IsKept ts none = Unit
  IsKept ts (some (us, v)) = (requests_of us ≡ requests_of ts) × Given content us

  -- The wait for the oldest keeps the requests, and what it stores are answers.
  wait_oldest-IsKept :
      (n : ℕ) (ts : List Task) (w : W)
      → Given content ts
      → IsKept ts (wait_oldest os rounds fd n ts w)
  unfolding wait_oldest
  wait_oldest-IsKept zero ts w g = (refl, g)
  wait_oldest-IsKept (suc n) [] w g = (refl, tt)
  wait_oldest-IsKept (suc n) (t ∷ ts) w g =
      first (wait os rounds fd t w) refl (λ v. wait_oldest-IsKept n ts v g.1)
    where
      rest :
          (u : Task)
          → (u.request ≡ t.request)
          → ((c : Completion) → u.result ≡ some c → Answers content u.request c)
          → (o : Option (List Task × W)) → IsKept ts o
          → IsKept (t ∷ ts) (◌>>=◌ {B = List Task × W} o (λ r. some (u ∷ r.0, r.1)))
      rest u e a none k = tt
      rest u e a (some (us, v)) (q, k) = (ap₂ ◌∷◌ e q, (a, k))

      first :
          (o : Option (Task × W))
          → wait os rounds fd t w ≡ o
          → ((v : W) → IsKept ts (wait_oldest os rounds fd n ts v))
          → IsKept (t ∷ ts) (
              ◌>>=◌ {B = List Task × W} o
                (λ r. wait_oldest os rounds fd n ts r.1 >>= λ s. some (r.0 ∷ s.0, s.1)))
      first none q ih = tt
      first (some (u, v)) q ih =
          let (e, a) = wait-Given t u w v q g.0 in
          rest u e a (wait_oldest os rounds fd n ts v) (ih v)

  drain-Given : (room : ℕ) (ts : List Task) → Given content ts → Given content (drain room ts).1
  unfolding drain drain_front
  drain-Given zero ts g = g
  drain-Given (suc room) [] g = tt
  drain-Given (suc room) (t ∷ ts) g = front t.result (drain-Given room ts g.1)
    where
      front :
          (o : Option Completion)
          → Given content (drain room ts).1
          → Given content (drain_front o (t ∷ ts) (drain room ts)).1
      front none h = g
      front (some c) h = h

  -- With room for one, the completion is that of the oldest request.
  abbrev pub IsFirst : List Task → List Completion × List Task → Type 0
  IsFirst ts ([], us) = Unit
  IsFirst ts (c ∷ cs, us) =
      (r : ReadRequest) × (requests_of ts ≡ r ∷ requests_of us) × Answers content r c

  drain-IsFirst : (ts : List Task) → Given content ts → IsFirst ts (drain 1 ts)
  unfolding drain drain_front
  drain-IsFirst [] g = tt
  drain-IsFirst (t ∷ ts) g = front t.result refl
    where
      front :
          (o : Option Completion)
          → t.result ≡ o
          → IsFirst (t ∷ ts) (drain_front o (t ∷ ts) (drain 0 ts))
      front none e = tt
      front (some c) e = (t.request, refl, g.0 c e)

  abbrev pub HandsOut :
      ℕ → List Task → Option (Outcome Error (List Completion) × ThreadBackend × W) → Type 0
  HandsOut room ts none = Unit
  HandsOut room ts (some (err e, b, w)) = ⊥
  HandsOut room ts (some (ok cs, b, w)) =
      Given content b.pending × (b.fd ≡ fd) × (room ≡ 1 → IsFirst ts (cs, b.pending))

  pub reap-HandsOut :
      (room least : ℕ) (b : ThreadBackend) (w : W)
      → b.fd ≡ fd
      → Given content b.pending
      → HandsOut room b.pending (reap os rounds fd room least b w)
  unfolding reap
  reap-HandsOut room least b w e g =
      after (wait_oldest os rounds fd n b.pending w) (wait_oldest-IsKept n b.pending w g)
    where
      n : ℕ
      n = min (min least room) (length b.pending)

      first :
          (us : List Task)
          → requests_of us ≡ requests_of b.pending
          → (d : List Completion × List Task) → IsFirst us d
          → IsFirst b.pending d
      first us q ([], vs) h = tt
      first us q (c ∷ cs, vs) (r, p, a) = (r, sym q ∙ p, a)

      after :
          (o : Option (List Task × W))
          → IsKept b.pending o
          → HandsOut room b.pending (
              ◌>>=◌ {B = Outcome Error (List Completion) × ThreadBackend × W} o
                (λ x. some (ok (drain room x.0).0, record b { pending = (drain room x.0).1 }, x.1)))
      after none k = tt
      after (some (us, v)) (q, k) = (
        drain-Given room us k,
        e,
        λ one.
            subst (λ x. IsFirst b.pending (drain x us)) (sym one)
              (first us q (drain 1 us) (drain-IsFirst us k)),
      )
