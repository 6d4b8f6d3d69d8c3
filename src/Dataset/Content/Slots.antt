-- ===== src/Dataset/Content/Slots.antt =====
-- The slots of the entries in flight: taken, and all different.
use mathlib.Core.Option.{some-injective}
use forge_dsio.Prelude.{
  ℕ, zero, suc, ◌<◌, ◌≡◌, ◌≢◌, refl, sym, ap, ◌∙◌, subst, Bool, true, false, Option, none, some,
  List, [], ◌∷◌, ◌++◌, length, set, get_elem?, get_elem?-set_self, get_elem?-set_ne, arith,
}
use forge_dsio.Dataset.{Pending, take_free, shift, release}

abbrev pub IsTaken : List Bool → ℕ → Type 0
IsTaken free k = get_elem? free k ≡ some false

abbrev pub IsFree : List Bool → ℕ → Type 0
IsFree free k = get_elem? free k ≡ some true

-- No entry has this slot.
abbrev pub AllOther : ℕ → List Pending → Type 0
AllOther k [] = Unit
AllOther k (p ∷ ps) = (p.slot ≢ k) × AllOther k ps

abbrev pub Slots : List Bool → List Pending → Type 0
Slots free [] = Unit
Slots free (p ∷ ps) = IsTaken free p.slot × AllOther p.slot ps × Slots free ps

shift-IsFree :
    (free : List Bool) (o : Option (ℕ × List Bool)) (k : ℕ) (taken : List Bool)
    → ((j : ℕ) → (t : List Bool) → o ≡ some (j, t) → IsFree free j × (t ≡ set free j false))
    → shift o ≡ some (k, taken)
    → IsFree (false ∷ free) k × (taken ≡ set (false ∷ free) k false)
shift-IsFree free none k taken h e = absurd (ground (arith, e))
shift-IsFree free (some (j, t)) k taken h e =
    subst (λ (x : ℕ × List Bool). IsFree (false ∷ free) x.0 × (x.1 ≡ set (false ∷ free) x.0 false))
      (some-injective _ _ e) (let p = h j t refl in (p.0, ap (λ x. false ∷ x) p.1))

-- The slot that is taken was free.
pub take_free_lem :
    (free : List Bool) (k : ℕ) (taken : List Bool)
    → take_free free ≡ some (k, taken)
    → IsFree free k × (taken ≡ set free k false)
unfolding take_free
take_free_lem [] k taken e = absurd (ground (arith, e))
take_free_lem (true ∷ free) k taken e =
    subst (λ (x : ℕ × List Bool). IsFree (true ∷ free) x.0 × (x.1 ≡ set (true ∷ free) x.0 false))
      (some-injective _ _ e) (refl, refl)
take_free_lem (false ∷ free) k taken e =
    shift-IsFree free (take_free free) k taken (λ j t q. take_free_lem free j t q) e

shift-none : (o : Option (ℕ × List Bool)) → shift o ≡ none → o ≡ none
shift-none none e = refl
shift-none (some p) e = absurd (ground (arith, e))

-- With a free slot, one is found.
pub take_free-IsFree : (free : List Bool) (k : ℕ) → IsFree free k → take_free free ≢ none
unfolding take_free
take_free-IsFree [] k h e = absurd (ground (arith, h))
take_free-IsFree (true ∷ free) k h e = absurd (ground (arith, e))
take_free-IsFree (false ∷ free) zero h e = absurd (ground (arith, h))
take_free-IsFree (false ∷ free) (suc k) h e =
    take_free-IsFree free k h (shift-none (take_free free) e)

pub lt_of_get : {A : Type 0} (xs : List A) (k : ℕ) (a : A) → get_elem? xs k ≡ some a → k < length xs
lt_of_get [] k a e = absurd (ground (arith, e))
lt_of_get (x ∷ xs) zero a e = omega arith
lt_of_get (x ∷ xs) (suc k) a e = omega (arith, lt_of_get xs k a e)

-- A slot that is free is none of the entries'.
AllOther-free :
    (free : List Bool) (k : ℕ) (ps : List Pending) → IsFree free k → Slots free ps → AllOther k ps
AllOther-free free k [] h s = tt
AllOther-free free k (p ∷ ps) h s = (
  λ e. absurd (ground (arith, sym h ∙ ap (get_elem? free) (sym e) ∙ s.0)),
  AllOther-free free k ps h s.2,
)

Slots-set :
    (free : List Bool) (k : ℕ) (v : Bool) (ps : List Pending)
    → AllOther k ps
    → Slots free ps
    → Slots (set free k v) ps
Slots-set free k v [] o s = tt
Slots-set free k v (p ∷ ps) o s =
    (get_elem?-set_ne free v (λ e. o.0 (sym e)) ∙ s.0, s.1, Slots-set free k v ps o.1 s.2)

AllOther-append :
    (k : ℕ) (ps : List Pending) (p : Pending)
    → AllOther k ps
    → p.slot ≢ k
    → AllOther k (ps ++ p ∷ [])
AllOther-append k [] p o h = (h, tt)
AllOther-append k (q ∷ ps) p o h = (o.0, AllOther-append k ps p o.1 h)

Slots-append :
    (free : List Bool) (ps : List Pending) (p : Pending)
    → Slots free ps
    → AllOther p.slot ps
    → IsTaken free p.slot
    → Slots free (ps ++ p ∷ [])
Slots-append free [] p s o t = (t, tt, tt)
Slots-append free (q ∷ ps) p s o t =
    (s.0, AllOther-append q.slot ps p s.1 (λ e. o.0 (sym e)), Slots-append free ps p s.2 o.1 t)

-- A new entry takes its slot.
pub Slots-take_free :
    (free taken : List Bool) (ps : List Pending) (p : Pending)
    → take_free free ≡ some (p.slot, taken)
    → Slots free ps
    → Slots taken (ps ++ p ∷ [])
Slots-take_free free taken ps p e s =
    let t = take_free_lem free p.slot taken e in
    let o = AllOther-free free p.slot ps t.0 s in
    subst (λ x. Slots x (ps ++ p ∷ [])) (sym t.1)
      (Slots-append (set free p.slot false) ps p (Slots-set free p.slot false ps o s) o
        (get_elem?-set_self free p.slot false (lt_of_get free p.slot true t.0)))

-- The front entry gives its slot back.
pub Slots-release :
    (free : List Bool) (p : Pending) (ps : List Pending)
    → Slots free (p ∷ ps)
    → Slots (release p.slot free) ps × IsFree (release p.slot free) p.slot
unfolding release
Slots-release free p ps s = (
  Slots-set free p.slot true ps s.1 s.2,
  get_elem?-set_self free p.slot true (lt_of_get free p.slot false s.0),
)
