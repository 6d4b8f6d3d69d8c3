-- ===== src/Dataset/Batches/Fixture.antt =====
-- A channel, a backend and a system for the tests of `for_each_batch`, which work as documented.
use forge_dsio.Prelude.{
  ◌≤◌, ◌<◌, ℕ, ◌-◌, ◌==◌, ◌≡◌, ◌≢◌, refl, sym, ap, ◌∙◌, subst, Bool, true, false, ltb,
  if◌then◌else◌, List, [], ◌∷◌, ◌++◌, append-nil, length, take, drop, replicate, length-replicate,
  min, ok, err, Outcome, arith,
}
use forge_dsio.Error.{Error, Text}
use forge_dsio.Os.{Os, Sys, done, failed, Flags}
use forge_dsio.Os.Disk.{Disk, disk_os}
use forge_dsio.Backend.{ReadRequest, Completion, BackendOps}
use forge_dsio.File.{Bytes}
use forge_dsio.Reader.{Alloc}
use forge_dsio.Dataset.Stream.{Opener}
use forge_dsio.Dataset.Channel.{
  Channel, ChannelLaws, Sent, sent, full, refused, Received, received, not_yet, ended,
}
use forge_dsio.Dataset.Content.{Serves, Names, Answers}
use forge_dsio.Dataset.Fitting.{Allocates}

-- A channel: a queue with its bound.
pub record Queue (A : Type 0) : Type 0 where
  pub items : List A
  pub bound : ℕ
  pub shut : Bool

abbrev pub queue_send : {A : Type 0} → A → Queue A → Sent (Queue A)
queue_send a q =
    if q.shut
    then refused
    else if ltb (length q.items) q.bound
    then sent (record q { items = q.items ++ a ∷ [] })
    else full

abbrev pub taken : {A : Type 0} → List A → Queue A → Received A (Queue A)
taken [] q = if q.shut then ended else not_yet
taken (a ∷ items) q = received a (record q { items = items })

abbrev pub queue : {A : Type 0} → Channel A (Queue A)
queue = record {
  make = λ n. record { items = []; bound = n; shut = false };
  send = queue_send;
  recv = λ q. taken q.items q;
  close = λ q. record q { shut = true };
}

pub queue-ChannelLaws : {A : Type 0} → ChannelLaws (queue {A = A})
queue-ChannelLaws = record {
  contents = λ q. q.items;
  capacity = λ q. q.bound;
  closed = λ q. q.shut;
  made = λ n. (refl, refl, refl);
  on_sent = λ a c d q. ground arith;
  on_full = λ a c q. ground arith;
  on_refused = λ a c q. ground arith;
  on_received = λ a c d q. ground arith;
  on_not_yet = λ c q. ground arith;
  on_ended = λ c q. ground arith;
  on_close = λ c. (refl, refl, refl);
}

-- A disk that remembers the paths of its descriptors.
pub record World : Type 0 where
  pub disk : Disk
  pub names : ℕ → Text

abbrev lifted {ℓ} : {A : Type ℓ} → (ℕ → Text) → A × Disk → A × World
lifted names (a, d) = (a, record { disk = d; names = names })

abbrev opens_as : Text → World → Sys ℕ × Disk → Sys ℕ × World
opens_as path w (failed code, d) = (failed code, record { disk = d; names = w.names })
opens_as path w (done fd, d) =
    (done fd, record { disk = d; names = λ x. if x == fd then path else w.names x })

abbrev pub world_os : Os World
world_os =
    let os = disk_os [] in
    record {
      sys_open = λ path flags mode w. opens_as path w (os.sys_open path flags mode w.disk);
      sys_close = λ fd w. record w { disk = os.sys_close fd w.disk };
      sys_blksszget = λ fd w. lifted w.names (os.sys_blksszget fd w.disk);
      sys_statfs = λ path w. lifted w.names (os.sys_statfs path w.disk);
      sys_fstat = λ fd w. lifted w.names (os.sys_fstat fd w.disk);
      sys_pread = λ fd offset count w. lifted w.names (os.sys_pread fd offset count w.disk);
      sys_pwrite = λ fd offset src w. lifted w.names (os.sys_pwrite fd offset src w.disk);
      sys_fsync = λ fd w. lifted w.names (os.sys_fsync fd w.disk);
      sys_fdatasync = λ fd w. lifted w.names (os.sys_fdatasync fd w.disk);
    }

-- Two files: the one of the empty path, and that of the others.
abbrev pub files : Text → Bytes
files [] = 1 ∷ 2 ∷ 3 ∷ 4 ∷ 5 ∷ 6 ∷ 7 ∷ 8 ∷ 9 ∷ []
files (_ ∷ _) = 21 ∷ 22 ∷ 23 ∷ 24 ∷ []

-- A backend in memory, which completes its newest read first.
pub record Memory : Type 0 where
  pub file : Bytes
  pub requests : List ReadRequest

abbrev last_of : ReadRequest → List ReadRequest → List ReadRequest × ReadRequest
last_of r [] = ([], r)
last_of r (x ∷ xs) = (r ∷ (last_of x xs).0, (last_of x xs).1)

last_of-append :
    (r : ReadRequest) (rs : List ReadRequest) → r ∷ rs ≡ (last_of r rs).0 ++ (last_of r rs).1 ∷ []
last_of-append r [] = refl
last_of-append r (x ∷ xs) = ap (λ l. r ∷ l) (last_of-append x xs)

abbrev answer : Bytes → ReadRequest → Completion
answer file r = record {
  token = r.token;
  bytes = min r.size (length file - r.offset);
  error = 0;
  landed = take r.size (drop r.offset file);
}

abbrev newest : Bytes → List ReadRequest → World → Outcome Error (List Completion) × Memory × World
newest file [] w = (ok [], record { file = file; requests = [] }, w)
newest file (r ∷ rs) w =
    (ok (answer file (last_of r rs).1 ∷ []), record { file = file; requests = (last_of r rs).0 }, w)

abbrev pub memory : BackendOps Memory World
memory = record {
  in_flight = λ b. length b.requests;
  submit = λ rs b w. (ok tt, record b { requests = b.requests ++ rs }, w);
  reap = λ room least b w. newest b.file b.requests w;
}

abbrev pub opener : Opener Memory World
opener = record {
  open_backend = λ fd options w. (ok (record { file = files (w.names fd); requests = [] }), w);
  destroy = λ b w. w;
}

abbrev pub alloc : Alloc
alloc size block = ok (replicate size 0)

abbrev head_of : Completion → Outcome Error (List Completion) → Completion
head_of d (ok (c ∷ _)) = c
head_of d _ = d

answer-Answers : (file : Bytes) (r : ReadRequest) → Answers file r (answer file r)
answer-Answers file r = record { token = refl; bytes = λ _. refl; landed = λ _. refl }

newest-Answers :
    (file : Bytes) (rs : List ReadRequest) (w w' : World) (c : Completion) (more : List Completion)
    (b' : Memory)
    → newest file rs w ≡ (ok (c ∷ more), b', w')
    → (r : ReadRequest) × (xs : List ReadRequest) × (ys : List ReadRequest) × (rs ≡ xs ++ r ∷ ys)
      × (b'.requests ≡ xs ++ ys)
      × (b'.file ≡ file)
      × Answers file r c
newest-Answers file [] w w' c more b' q = absurd (ground (arith, q))
newest-Answers file (r ∷ rs) w w' c more b' q =
    let (front, l) = last_of r rs in
    let same : record { file = file; requests = front } ≡ b' =
      ap (λ (x : Outcome Error (List Completion) × Memory × World). x.1) q in
    (
      l,
      front,
      [],
      last_of-append r rs,
      sym (ap (λ (x : Memory). x.requests) same) ∙ sym (append-nil front),
      sym (ap (λ (x : Memory). x.file) same),
      subst (Answers file l)
          (ap
            (λ (x : Outcome Error (List Completion) × Memory × World). head_of (answer file l) x.0)
            q)
          (answer-Answers file l),
    )

pub memory-Serves : Serves memory
memory-Serves = record {
  flying = λ b. b.requests;
  content = λ b. b.file;
  on_submit = λ rs b b' w w' q. (
    sym (ap (λ (x : Outcome Error (Unit {0}) × Memory × World). x.1.requests) q),
    sym (ap (λ (x : Outcome Error (Unit {0}) × Memory × World). x.1.file) q),
  );
  on_reap = λ b b' w w' c more q. newest-Answers b.file b.requests w w' c more b' q;
}

abbrev memory_of : Memory → Outcome Error Memory × World → Memory
memory_of d (ok b, w) = b
memory_of d (err e, w) = d

pub opened_lem :
    (file : Bytes) (w : World) (b : Memory) (w' : World)
    → ◌≡◌ {A = Outcome Error Memory × World}
        (ok (record { file = file; requests = [] }), w)
        (ok b, w')
    → (b.requests ≡ []) × (b.file ≡ file)
opened_lem file w b w' q =
    let same : record { file = file; requests = [] } ≡ b = ap (memory_of b) q in
    (sym (ap (λ (x : Memory). x.requests) same), sym (ap (λ (x : Memory). x.file) same))

pub world_device_lem : (fd n : ℕ) (w : World) → (world_os.sys_blksszget fd w).0 ≡ done n → n ≤ 4
world_device_lem fd n w q = ground (arith, q)

pub world_statfs_lem :
    (path : Text) (n : ℕ) (w : World) → (world_os.sys_statfs path w).0 ≡ done n → (0 < n) × (n ≤ 4)
world_statfs_lem path n w q = ground (arith, q)

pub opens_as_lem :
    (path : Text) (flags : Flags) (mode fd : ℕ) (w : World)
    → (world_os.sys_open path flags mode w).0 ≡ done fd
    → (world_os.sys_open path flags mode w).1.names fd ≡ path
opens_as_lem path flags mode fd w q = ground (arith, q)

pub opens_other_lem :
    (path : Text) (flags : Flags) (mode fd other : ℕ) (w : World)
    → (world_os.sys_open path flags mode w).0 ≡ done fd
    → other ≢ fd
    → (world_os.sys_open path flags mode w).1.names other ≡ w.names other
opens_other_lem path flags mode fd other w q ne = ground (arith, q, ne)

pub open_fails_lem :
    (path : Text) (flags : Flags) (mode code other : ℕ) (w : World)
    → (world_os.sys_open path flags mode w).0 ≡ failed code
    → (world_os.sys_open path flags mode w).1.names other ≡ w.names other
open_fails_lem path flags mode code other w q = absurd (ground (arith, q))

unfoldable pub world-Names : Names world_os opener memory-Serves
unfolding memory-Serves
world-Names = record {
  name = λ w. w.names;
  files = files;
  most = 4;
  device_le = world_device_lem;
  statfs_le = world_statfs_lem;
  on_open = opens_as_lem;
  on_open_other = opens_other_lem;
  on_open_fails = open_fails_lem;
  on_close = λ fd other w. refl;
  on_blksszget = λ fd other w. refl;
  on_statfs = λ path other w. refl;
  on_open_backend = λ fd options b w w' q. opened_lem (files (w.names fd)) w b w' q;
}

pub alloc-Allocates : Allocates alloc
alloc-Allocates size block b q = sym (ap bytes_of q) ∙ length-replicate size 0
  where
    bytes_of : Outcome Text Bytes → ℕ
    bytes_of (ok b) = length b
    bytes_of (err e) = 0
