-- ===== src/Queue/Soundness.antt =====
-- What holds of the queue and its workers (investigation_queue.py) after any interleaving.
use uyuni_ai.Common.{
  ℕ, suc, ◌+◌, ◌≡◌, refl, sym, ap, ◌∙◌, subst, Bool, true, false, ◌&&◌, ◌||◌, none, some, List, [],
  ◌∷◌, String, arith, ◌==◌, if◌then◌else◌, is_some,
}
use uyuni_ai.Common.Lists.{length, mem, discard, mem-discard, Once}
use uyuni_ai.Common.Dict.{Dict, lookup, erase, lookup-erase}
use uyuni_ai.Queue.Heap.{Item, find}
use uyuni_ai.Queue.{
  InvestigationQueue, enqueue, cancel, next, takes, Outcome, close_begin, close_end,
}
use uyuni_ai.Queue.Invariant.{IsValid}
use uyuni_ai.Queue.Preserves.{enqueue-IsValid, cancel-IsValid, next-IsValid}
use uyuni_ai.Queue.Service.{Serves, next-Serves}
use uyuni_ai.Queue.Ledger.{
  disposed, taken, Accounts, enqueue-Accounts, cancel-Accounts, next-Accounts, in_flight-enqueue,
  in_flight-cancel,
}
use uyuni_ai.Queue.Workers.{Service, without}

mem-false-discard : (x y : ℕ) (xs : List ℕ) → mem y xs ≡ false → mem y (discard x xs) ≡ false
mem-false-discard x y xs h = ground (arith, mem-discard x y xs)

pub Once-discard : (x : ℕ) (xs : List ℕ) → Once xs → Once (discard x xs)
Once-discard x [] h = tt
Once-discard x (y ∷ ys) h = ground (arith, Once-discard x ys, mem-false-discard x y ys)

discard_absent : (x : ℕ) (xs : List ℕ) → mem x xs ≡ false → discard x xs ≡ xs
discard_absent x [] h = refl
discard_absent x (y ∷ ys) h = ground (arith, discard_absent x ys)

pub length-discard :
    (x : ℕ) (xs : List ℕ) → Once xs → mem x xs ≡ true → suc (length (discard x xs)) ≡ length xs
length-discard x [] o h = cc
length-discard x (y ∷ ys) o h = ground (arith, length-discard x ys, discard_absent x ys)

-- no key twice
abbrev pub OnceKeys : Dict Outcome → Type 0
OnceKeys [] = Unit
OnceKeys ((k, v) ∷ d) = (lookup k d ≡ none) × OnceKeys d

pub OnceKeys-erase : (k : ℕ) (d : Dict Outcome) → OnceKeys d → OnceKeys (erase k d)
OnceKeys-erase k [] h = tt
OnceKeys-erase k ((j, v) ∷ d) h = ground (arith, OnceKeys-erase k d, lookup-erase k j d)

erase_absent : (k : ℕ) (d : Dict Outcome) → lookup k d ≡ none → erase k d ≡ d
erase_absent k [] h = refl
erase_absent k ((j, v) ∷ d) h = ground (arith, erase_absent k d)

pub length-erase :
    (k : ℕ) (o : Outcome) (d : Dict Outcome)
    → OnceKeys d
    → lookup k d ≡ some o
    → suc (length (erase k d)) ≡ length d
length-erase k o [] h e = cc
length-erase k o ((j, v) ∷ d) h e = ground (arith, length-erase k o d, erase_absent k d)

module _ {P : Type 0} where
  -- no fingerprint twice
  abbrev pub OnceItems : List (Item P) → Type 0
  OnceItems [] = Unit
  OnceItems (x ∷ xs) = (find x.fingerprint xs ≡ none) × OnceItems xs

  pub find-without :
      (f g : ℕ) (xs : List (Item P))
      → OnceItems xs
      → find g (without f xs) ≡ (if f == g then none else find g xs)
  find-without f g [] h = ground arith
  find-without f g (x ∷ xs) h = ground (arith, find-without f g xs)

  pub OnceItems-without : (f : ℕ) (xs : List (Item P)) → OnceItems xs → OnceItems (without f xs)
  OnceItems-without f [] h = tt
  OnceItems-without f (x ∷ xs) h =
      ground (arith, OnceItems-without f xs, find-without f x.fingerprint xs)

  pub length-without :
      (f : ℕ) (x : Item P) (xs : List (Item P))
      → find f xs ≡ some x
      → suc (length (without f xs)) ≡ length xs
  length-without f x [] e = cc
  length-without f x (y ∷ ys) e = ground (arith, length-without f x ys)

  -- What is in flight is exactly what the busy and the leaving workers have, each fingerprint with
  -- one worker; every worker is somewhere; every job that was admitted is accounted for.
  pub record IsSound (s : Service P) : Type 0 where
    pub valid : IsValid s.queue
    pub held :
        (f : ℕ)
        → mem f s.queue.in_flight ≡ (is_some (find f s.busy) || is_some (lookup f s.leaving))
    pub apart : (f : ℕ) → (is_some (find f s.busy) && is_some (lookup f s.leaving)) ≡ false
    pub flight_once : Once s.queue.in_flight
    pub busy_once : OnceItems s.busy
    pub leaving_once : OnceKeys s.leaving
    pub counted : length s.queue.in_flight ≡ length s.busy + length s.leaving
    pub crew : s.idle + length s.busy + length s.leaving + s.gone ≡ s.queue.worker_count
    pub ledger :
        s.queue.enqueued ≡ length s.queue.heap + length s.busy + disposed s.queue + s.aborted

  pub enqueues-IsSound :
      (s : Service P) (f : ℕ) (severity : String) (payload : P)
      → IsSound s
      → IsSound (record s { queue = (enqueue f severity payload s.queue).0 })
  enqueues-IsSound s f severity payload h =
      let same = in_flight-enqueue f severity payload s.queue in
      let a = enqueue-Accounts f severity payload s.queue h.valid in
      record {
        valid = enqueue-IsValid f severity payload s.queue h.valid;
        held = λ g. ap (mem g) same ∙ h.held g;
        apart = h.apart;
        flight_once = rw same h.flight_once;
        busy_once = h.busy_once;
        leaving_once = h.leaving_once;
        counted = rw same h.counted;
        crew = h.crew ∙ sym a.same_workers;
        ledger = omega (arith, a.balance, h.ledger);
      }

  pub cancels-IsSound :
      (s : Service P) (f : ℕ) → IsSound s → IsSound (record s { queue = (cancel f s.queue).0 })
  cancels-IsSound s f h =
      let same = in_flight-cancel f s.queue in
      let a = cancel-Accounts f s.queue h.valid in
      record {
        valid = cancel-IsValid f s.queue h.valid;
        held = λ g. ap (mem g) same ∙ h.held g;
        apart = h.apart;
        flight_once = rw same h.flight_once;
        busy_once = h.busy_once;
        leaving_once = h.leaving_once;
        counted = rw same h.counted;
        crew = h.crew ∙ sym a.same_workers;
        ledger = omega (arith, a.balance, h.ledger);
      }

  close_begin-IsValid : (q : InvestigationQueue P) → IsValid q → IsValid (close_begin q)
  unfolding close_begin
  close_begin-IsValid q v = record {
    heap_ordered = v.heap_ordered;
    fresh = v.fresh;
    room = v.room;
    bounded = v.bounded;
    indexed = v.indexed;
    disjoint = v.disjoint;
  }

  close_end-IsValid : (b : Bool) (q : InvestigationQueue P) → IsValid q → IsValid (close_end b q).0
  unfolding close_end
  close_end-IsValid b q v = record {
    heap_ordered = v.heap_ordered;
    fresh = v.fresh;
    room = v.room;
    bounded = v.bounded;
    indexed = v.indexed;
    disjoint = v.disjoint;
  }

  pub closes-IsSound :
      (s : Service P) → IsSound s → IsSound (record s { queue = close_begin s.queue })
  unfolding close_begin
  closes-IsSound s h = record {
    valid = close_begin-IsValid s.queue h.valid;
    held = h.held;
    apart = h.apart;
    flight_once = h.flight_once;
    busy_once = h.busy_once;
    leaving_once = h.leaving_once;
    counted = h.counted;
    crew = h.crew;
    ledger = h.ledger;
  }

  pub closed-IsSound :
      (s : Service P) (b : Bool)
      → IsSound s
      → IsSound (record s { queue = (close_end b s.queue).0 })
  unfolding close_end
  closed-IsSound s b h = record {
    valid = close_end-IsValid b s.queue h.valid;
    held = h.held;
    apart = h.apart;
    flight_once = h.flight_once;
    busy_once = h.busy_once;
    leaving_once = h.leaving_once;
    counted = h.counted;
    crew = h.crew;
    ledger = h.ledger;
  }

  pub takes_item-IsSound :
      (s : Service P) (x : Item P) (n : ℕ)
      → s.idle ≡ suc n
      → (next s.queue).1 ≡ takes x
      → IsSound s
      → IsSound (record s { queue = (next s.queue).0; idle = n; busy = x ∷ s.busy })
  takes_item-IsSound s x n i e h =
      let served : Serves s.queue (next s.queue).0 (takes x) =
        subst (Serves s.queue (next s.queue).0) e (next-Serves s.queue h.valid) in
      let a : Accounts 1 s.queue (next s.queue).0 =
        subst (λ k. Accounts (taken k) s.queue (next s.queue).0) e (next-Accounts s.queue) in
      let now = served.4 in
      record {
        valid = next-IsValid s.queue h.valid;
        held = λ g. ap (mem g) now ∙ ground (arith, h.held g);
        apart = λ g. ground (arith, h.apart g, h.held x.fingerprint, served.3);
        flight_once = rw now (served.3, h.flight_once);
        busy_once = (ground (arith, h.held x.fingerprint, served.3), h.busy_once);
        leaving_once = h.leaving_once;
        counted = omega (arith, ap length now, h.counted);
        crew = omega (arith, h.crew, a.same_workers);
        ledger = omega (arith, a.balance, h.ledger);
      }
