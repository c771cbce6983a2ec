-- ===== src/Scheduler/Ring.antt =====
-- The circular list of threads as a list of numbers.
use xenon_os.Base.{
  refl, arith, ℕ, update, ◌≡◌, sym, ◌∙◌, ap, List, [], ◌∷◌, ◌++◌, update-other, update-same,
}
use xenon_os.Base.Distinct.{NotIn, Distinct}
use xenon_os.Scheduler.{Thread, Scheduler, scheduler_add}

-- Following `next` from `p` gives the threads of the list, and then `last`.
abbrev pub Chain : (ℕ → Thread) → ℕ → List ℕ → ℕ → Type 0
Chain t p [] last = (t p).next ≡ last
Chain t p (q ∷ qs) last = ((t p).next ≡ q) × Chain t q qs last

-- From the current thread the links lead through `others`, each of them once, and back.
pub record IsRing (s : Scheduler) (others : List ℕ) : Type 0 where
  pub chain : Chain s.threads s.current others s.current
  pub distinct : Distinct (s.current ∷ others)

-- A chain depends on the links of its threads alone.
pub Chain-update :
    (t : ℕ → Thread) (x : ℕ) (v : Thread) (p : ℕ) (qs : List ℕ) (last : ℕ)
    → NotIn x (p ∷ qs)
    → Chain t p qs last
    → Chain (update t x v) p qs last
Chain-update t x v p [] last n c =
    ap (λ (r : Thread). r.next) (update-other t x p v (λ e. n.0 (sym e))) ∙ c
Chain-update t x v p (q ∷ qs) last n c = (
  ap (λ (r : Thread). r.next) (update-other t x p v (λ e. n.0 (sym e))) ∙ c.0,
  Chain-update t x v q qs last n.1 c.1,
)

pub Chain-links :
    (t t' : ℕ → Thread) (p : ℕ) (qs : List ℕ) (last : ℕ)
    → ((x : ℕ) → (t' x).next ≡ (t x).next)
    → Chain t p qs last
    → Chain t' p qs last
Chain-links t t' p [] last same c = same p ∙ c
Chain-links t t' p (q ∷ qs) last same c = (same p ∙ c.0, Chain-links t t' q qs last same c.1)

pub Chain-join :
    (t : ℕ → Thread) (p : ℕ) (xs : List ℕ) (m : ℕ) (ys : List ℕ) (last : ℕ)
    → Chain t p xs m
    → Chain t m ys last
    → Chain t p (xs ++ (m ∷ ys)) last
Chain-join t p [] m ys last a b = (a, b)
Chain-join t p (x ∷ xs) m ys last a b = (a.0, Chain-join t x xs m ys last a.1 b)

pub Chain-split :
    (t : ℕ → Thread) (p : ℕ) (xs : List ℕ) (m : ℕ) (ys : List ℕ) (last : ℕ)
    → Chain t p (xs ++ (m ∷ ys)) last
    → Chain t p xs m × Chain t m ys last
Chain-split t p [] m ys last c = c
Chain-split t p (x ∷ xs) m ys last c =
    let (a, b) = Chain-split t x xs m ys last c.1 in ((c.0, a), b)

pub Chain-start :
    (t : ℕ → Thread) (p x : ℕ) (qs : List ℕ) (last : ℕ)
    → (t x).next ≡ (t p).next
    → Chain t p qs last
    → Chain t x qs last
Chain-start t p x [] last e c = e ∙ c
Chain-start t p x (q ∷ qs) last e c = (e ∙ c.0, c.1)

-- scheduler_add puts a new thread between the current one and the one behind it, and keeps the
-- ring of all the others as it was.
pub scheduler_add-IsRing :
    (thread : ℕ) (s : Scheduler) (others : List ℕ)
    → IsRing s others
    → NotIn thread (s.current ∷ others)
    → IsRing (scheduler_add thread s) (thread ∷ others)
unfolding scheduler_add
scheduler_add-IsRing thread s others ring new =
    let head = s.current in
    let link : ℕ = (s.threads head).next in
    let linked : Thread = record (s.threads thread) { next = link } in
    let t = update s.threads thread linked in
    let same : (t thread).next ≡ (t head).next =
      ap (λ (r : Thread). r.next) (update-same s.threads thread linked)
      ∙ sym (
          ap (λ (r : Thread). r.next)
            (update-other s.threads thread head linked (λ e. new.0 (sym e)))) in
    let entered =
      Chain-start t head thread others head same
        (Chain-update s.threads thread linked head others head new ring.chain) in
    let apart : NotIn head (thread ∷ others) = ((λ e. new.0 (sym e)), ring.distinct.0) in
    let last : Thread = record (t head) { next = thread } in
    record {
      chain = (
        ap (λ (r : Thread). r.next) (update-same t head last),
        Chain-update t head last thread others head apart entered,
      );
      distinct = (apart, (new.1, ring.distinct.1));
    }

-- scheduler_add writes links only.
pub scheduler_add-kept :
    (thread p : ℕ) (s : Scheduler)
    → (((scheduler_add thread s).threads p).state ≡ (s.threads p).state)
      × (((scheduler_add thread s).threads p).entry ≡ (s.threads p).entry)
      × ((scheduler_add thread s).current ≡ s.current)
unfolding scheduler_add
scheduler_add-kept thread p s = (ground arith, ground arith, refl)

pub scheduler_add-esp :
    (thread p : ℕ) (s : Scheduler) → ((scheduler_add thread s).threads p).esp ≡ (s.threads p).esp
unfolding scheduler_add
scheduler_add-esp thread p s = ground arith
