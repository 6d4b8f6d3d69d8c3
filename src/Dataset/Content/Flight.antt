-- ===== src/Dataset/Content/Flight.antt =====
-- The entries of `ShardStream` and the requests of its backend: which bytes an entry stands for.
use mathlib.Core.List.{List}
use forge_dsio.Prelude.{
  ℕ, zero, suc, ◌+◌, ◌-◌, ◌<◌, ◌≤◌, ◌≡◌, ◌≢◌, refl, sym, ap, ◌∙◌, subst, Bool, true, false, [], ◌∷◌,
  ◌++◌, length, set, get_or, take, drop, min, length-take, length-drop, length-set, length-append,
  take-append_le, take-all, take-take, take-min, drop-take, drop-all, arith,
}
use forge_dsio.File.{Bytes}
use forge_dsio.Backend.{ReadRequest, Completion}
use forge_dsio.Dataset.{Pending}
use forge_dsio.Dataset.Pipeline.{land}
use forge_dsio.Dataset.Completions.{Marks}
use forge_dsio.Dataset.Content.{Answers}
use forge_dsio.Dataset.Content.Slots.{AllOther, Slots}

get_or-set_self :
    {A : Type 0} (xs : List A) (k : ℕ) (v d : A) → k < length xs → get_or (set xs k v) k d ≡ v
get_or-set_self [] k v d h = absurd (omega (arith, h))
get_or-set_self (x ∷ xs) zero v d h = refl
get_or-set_self (x ∷ xs) (suc k) v d h = get_or-set_self xs k v d (omega (arith, h))

get_or-set_ne :
    {A : Type 0} (xs : List A) (i k : ℕ) (v d : A) → i ≢ k → get_or (set xs i v) k d ≡ get_or xs k d
get_or-set_ne [] i k v d h = refl
get_or-set_ne (x ∷ xs) zero zero v d h = absurd (h refl)
get_or-set_ne (x ∷ xs) zero (suc k) v d h = refl
get_or-set_ne (x ∷ xs) (suc i) zero v d h = refl
get_or-set_ne (x ∷ xs) (suc i) (suc k) v d h = get_or-set_ne xs i k v d (λ e. h (ap suc e))

abbrev head_or : {A : Type 0} → A → List A → A
head_or d [] = d
head_or d (x ∷ xs) = x

abbrev tail : {A : Type 0} → List A → List A
tail [] = []
tail (x ∷ xs) = xs

-- The bytes from `at` on, `n` of them as far as the file and the window have them.
abbrev pub part : Bytes → ℕ → ℕ → ℕ → Bytes
part content end at n = take n (drop at (take end content))

-- The buffer of a slot starts with these bytes.
abbrev pub Holds : List Bytes → Pending → Bytes → Type 0
Holds buffers p bytes = (p.bytes ≡ length bytes) × (take p.bytes (get_or buffers p.slot []) ≡ bytes)

-- The entries from `at` up to `next`, one behind the other, each for some bytes. An entry that is done
-- has them in its buffer; the others are in flight, in the order of the requests.
pub data Flight (content : Bytes) (end : ℕ) (buffers : List Bytes)
    : ℕ → List Pending → List ReadRequest → ℕ → Type 0 where
  empty : {at next : ℕ} → at ≡ next → Flight content end buffers at [] [] next
  landed :
      {at next : ℕ} {p : Pending} {ps : List Pending} {rs : List ReadRequest} (n : ℕ)
      → p.done ≡ true
      → p.offset ≡ at
      → 0 < n
      → p.slot < length buffers
      → Holds buffers p (part content end at n)
      → Flight content end buffers (at + n) ps rs next
      → Flight content end buffers at (p ∷ ps) rs next
  flying :
      {at next : ℕ} {p : Pending} {ps : List Pending} {r : ReadRequest} {rs : List ReadRequest}
      (n : ℕ)
      → p.done ≡ false
      → p.offset ≡ at
      → 0 < n
      → p.slot < length buffers
      → r.offset ≡ at
      → r.token ≡ p.slot
      → n ≡ min r.size (end - at)
      → r.size ≤ length (get_or buffers p.slot [])
      → Flight content end buffers (at + n) ps rs next
      → Flight content end buffers at (p ∷ ps) (r ∷ rs) next

-- The window is read to its end.
pub window-nil :
    (content : Bytes) (end at next_offset : ℕ) (buffers : List Bytes) (rs : List ReadRequest)
    → Flight content end buffers at [] rs next_offset
    → end ≤ next_offset
    → drop at (take end content) ≡ []
window-nil content end at next_offset buffers rs (empty e) h =
    drop-all at (take end content) (omega (arith, e, h, length-take end content))

-- The bytes of the answer are those of the entry.
module _ (content : Bytes) (end : ℕ) (r : ReadRequest) (c : Completion) (at n : ℕ)
    (a : Answers content r c) (works : c.error ≡ 0) (o : r.offset ≡ at)
    (q : n ≡ min r.size (end - at)) where
  answer-bytes : c.bytes ≡ min r.size (length content - at)
  answer-bytes = a.bytes works ∙ ap (λ x. min r.size (length content - x)) o

  answer-landed : c.landed ≡ take r.size (drop at content)
  answer-landed = a.landed works ∙ ap (λ x. take r.size (drop x content)) o

  length-landed : length c.landed ≡ c.bytes
  length-landed =
      ap length answer-landed
      ∙ omega (arith, answer-bytes, length-take r.size (drop at content), length-drop at content)

  length-part : min c.bytes (end - at) ≡ length (part content end at n)
  length-part = omega (
    arith,
    q,
    answer-bytes,
    length-take n (drop at (take end content)),
    length-drop at (take end content),
    length-take end content,
  )

  take-landed : take (min c.bytes (end - at)) c.landed ≡ part content end at n
  take-landed =
      ap (take (min c.bytes (end - at))) answer-landed
      ∙ take-take (min c.bytes (end - at)) r.size (drop at content)
      ∙ take-min (min (min c.bytes (end - at)) r.size) (min n (end - at)) (drop at content)
          (omega (arith, q, answer-bytes, length-drop at content))
      ∙ sym (take-take n (end - at) (drop at content))
      ∙ ap (take n) (sym (drop-take at end content))

  land-Holds :
      (buffers : List Bytes) (p : Pending)
      → p.slot ≡ c.token
      → p.offset ≡ at
      → p.slot < length buffers
      → r.size ≤ length (get_or buffers p.slot [])
      → Holds
          (land c buffers)
          (record p { bytes = min c.bytes (end - p.offset); done = true })
          (part content end at n)
  land-Holds buffers p e l s fit =
      let m = min c.bytes (end - at) in
      let buffer = get_or buffers c.token [] in
      let old = drop (length c.landed) buffer in
      let same : length (get_or buffers p.slot []) ≡ length buffer =
        ap (λ k. length (get_or buffers k [])) e in
      let long : length (c.landed ++ old) ≤ length buffer = omega (
        arith,
        fit,
        same,
        ap length answer-landed,
        length-take r.size (drop at content),
        length-append c.landed old,
        length-drop (length c.landed) buffer,
      ) in
      let stored : get_or (land c buffers) p.slot [] ≡ c.landed ++ old =
        ap (λ k. get_or (land c buffers) k []) e
        ∙ get_or-set_self buffers c.token (take (length buffer) (c.landed ++ old)) []
            (omega (arith, e, s))
        ∙ take-all (length buffer) (c.landed ++ old) long in
      subst
        (λ x.
          Holds (land c buffers) (record p { bytes = min c.bytes (end - x); done = true })
            (part content end at n))
        (sym l)
        (
          length-part,
          ap (take m) stored
              ∙ take-append_le m c.landed old (omega (arith, length-landed))
              ∙ take-landed,
        )

Marks-AllOther :
    {end : ℕ} {c : Completion} (k : ℕ) {ps qs : List Pending}
    → Marks end c ps qs
    → AllOther k ps
    → AllOther k qs
Marks-AllOther k (Marks.here e) o = o
Marks-AllOther k (Marks.there ne m) o = (o.0, Marks-AllOther k m o.1)

pub Marks-Slots :
    {end : ℕ} {c : Completion} (free : List Bool) {ps qs : List Pending}
    → Marks end c ps qs
    → Slots free ps
    → Slots free qs
Marks-Slots free (Marks.here e) s = s
Marks-Slots free (Marks.there {p} ne m) s =
    (s.0, Marks-AllOther p.slot m s.1, Marks-Slots free m s.2)

module _ {content : Bytes} {end : ℕ} where
  -- A request for the next bytes.
  pub Flight-append :
      {buffers : List Bytes} {at next : ℕ} {ps : List Pending} {rs : List ReadRequest} (p : Pending)
      (r : ReadRequest) (n : ℕ)
      → Flight content end buffers at ps rs next
      → p.done ≡ false
      → p.offset ≡ next
      → 0 < n
      → p.slot < length buffers
      → r.offset ≡ next
      → r.token ≡ p.slot
      → n ≡ min r.size (end - next)
      → r.size ≤ length (get_or buffers p.slot [])
      → Flight content end buffers at (ps ++ p ∷ []) (rs ++ r ∷ []) (next + n)
  Flight-append p r n (empty {at} {next} e) d o l s ro rt q fit =
      flying n d (o ∙ sym e) l s (ro ∙ sym e) rt (subst (λ x. n ≡ min r.size (end - x)) (sym e) q)
        fit (empty (ap (λ x. x + n) e))
  Flight-append p r n (landed m d' o' l' s' h f) d o l s ro rt q fit =
      landed m d' o' l' s' h (Flight-append p r n f d o l s ro rt q fit)
  Flight-append p r n (flying m d' o' l' s' ro' rt' q' fit' f) d o l s ro rt q fit =
      flying m d' o' l' s' ro' rt' q' fit' (Flight-append p r n f d o l s ro rt q fit)

  -- A request in flight has an entry.
  other-request :
      {buffers : List Bytes} {at next k : ℕ} {ps : List Pending} {rs : List ReadRequest}
      (r : ReadRequest) (xs ys : List ReadRequest)
      → Flight content end buffers at ps rs next
      → AllOther k ps
      → rs ≡ xs ++ r ∷ ys
      → r.token ≢ k
  other-request r xs ys (empty e) o q =
      absurd (omega (arith, ap length q, length-append xs (r ∷ ys)))
  other-request r xs ys (landed m d' o' l' s' h f) o q = other-request r xs ys f o.1 q
  other-request r [] ys (flying m d' o' l' s' ro' rt' q' fit f) o q =
      λ e. o.0 (sym rt' ∙ ap (λ l. (head_or r l).token) q ∙ e)
  other-request r (x ∷ xs) ys (flying m d' o' l' s' ro' rt' q' fit f) o q =
      other-request r xs ys f o.1 (ap tail q)

  -- Another slot's buffer is of no importance.
  Flight-land :
      {buffers : List Bytes} {at next : ℕ} {ps : List Pending} {rs : List ReadRequest} (k : ℕ)
      (v : Bytes)
      → Flight content end buffers at ps rs next
      → AllOther k ps
      → Flight content end (set buffers k v) at ps rs next
  Flight-land k v (empty e) o = empty e
  Flight-land {buffers} k v (landed {p} m d' o' l' s' h f) o =
      landed m d' o' l' (subst (λ x. p.slot < x) (sym (length-set buffers k v)) s')
        (h.0, ap (take p.bytes) (get_or-set_ne buffers k p.slot v [] (λ e. o.0 (sym e))) ∙ h.1)
        (Flight-land k v f o.1)
  Flight-land {buffers} k v (flying {p} {r = r} m d' o' l' s' ro' rt' q' fit f) o =
      flying m d' o' l' (subst (λ x. p.slot < x) (sym (length-set buffers k v)) s') ro' rt' q'
        (subst (λ x. r.size ≤ length x)
          (sym (get_or-set_ne buffers k p.slot v [] (λ e. o.0 (sym e)))) fit)
        (Flight-land k v f o.1)

  -- A request that completed is out of flight, and its entry holds its bytes.
  landed_here :
      {buffers : List Bytes} {at next : ℕ} {p : Pending} {ps : List Pending} {rs : List ReadRequest}
      (c : Completion) (r : ReadRequest) (xs ys : List ReadRequest)
      → Flight content end buffers at (p ∷ ps) rs next
      → AllOther p.slot ps
      → rs ≡ xs ++ r ∷ ys
      → Answers content r c
      → c.error ≡ 0
      → p.slot ≡ c.token
      → Flight content end
          (land c buffers)
          at
          (record p { bytes = min c.bytes (end - p.offset); done = true } ∷ ps)
          (xs ++ ys)
          next
  landed_here c r xs ys (landed m d o l s h f) other q a works e =
      absurd (other-request r xs ys f other q (sym a.token ∙ sym e))
  landed_here c r (x ∷ xs) ys (flying m d o l s ro rt n fit f) other q a works e =
      absurd (other-request r xs ys f other (ap tail q) (sym a.token ∙ sym e))
  landed_here {buffers} {at} {next} {p} {ps} c r [] ys
        (flying {r = r'} {rs} m d o l s ro rt n fit f) other q a works e =
      let same : r' ≡ r = ap (head_or r) q in
      let others : rs ≡ ys = ap tail q in
      subst
        (λ x.
          Flight content end (land c buffers) at
            (record p { bytes = min c.bytes (end - p.offset); done = true } ∷ ps) x next)
        others
        (landed m refl o l (subst (λ x. p.slot < x) (sym (length-set buffers c.token _)) s)
          (land-Holds content end r c at m a works (subst (λ x. x.offset ≡ at) same ro)
            (subst (λ x. m ≡ min x.size (end - at)) same n) buffers p e o s
            (subst (λ x. x.size ≤ length (get_or buffers p.slot [])) same fit))
          (Flight-land c.token _ f (subst (λ k. AllOther k ps) e other)))

  -- A completion, of whichever request, makes its entry hold its bytes.
  pub Flight-Marks :
      (free : List Bool) (c : Completion) {buffers : List Bytes} {next : ℕ} {ps qs : List Pending}
      {at : ℕ} {rs : List ReadRequest} (r : ReadRequest) (xs ys : List ReadRequest)
      → Flight content end buffers at ps rs next
      → Slots free ps
      → rs ≡ xs ++ r ∷ ys
      → Answers content r c
      → c.error ≡ 0
      → Marks end c ps qs
      → Flight content end (land c buffers) at qs (xs ++ ys) next
  Flight-Marks free c r xs ys f s q a works (Marks.here e) = landed_here c r xs ys f s.1 q a works e
  Flight-Marks free c {buffers} r xs ys (landed {p} m d o l i h f) s q a works (Marks.there ne k) =
      landed m d o l (subst (λ x. p.slot < x) (sym (length-set buffers c.token _)) i)
        (h.0, ap (take p.bytes) (get_or-set_ne buffers c.token p.slot _ [] (λ e. ne (sym e))) ∙ h.1)
        (Flight-Marks free c r xs ys f s.2 q a works k)
  Flight-Marks free c r [] ys (flying m d o l i ro rt n fit f) s q a works (Marks.there ne k) =
      absurd (ne (sym rt ∙ ap (λ x. (head_or r x).token) q ∙ sym a.token))
  Flight-Marks free c {buffers} {next} {qs} {at} r (x ∷ xs) ys
        (flying {p} {r = r'} m d o l i ro rt n fit f) s q a works (Marks.there {rest'} ne k) =
      let same : r' ≡ x = ap (head_or r) q in
      subst (λ z. Flight content end (land c buffers) at (p ∷ rest') (z ∷ (xs ++ ys)) next) same
        (flying m d o l (subst (λ z. p.slot < z) (sym (length-set buffers c.token _)) i) ro rt n
          (subst (λ z. r'.size ≤ length z)
            (sym (get_or-set_ne buffers c.token p.slot _ [] (λ e. ne (sym e)))) fit)
          (Flight-Marks free c r xs ys f s.2 (ap tail q) a works k))
