-- ===== src/Intq/Ring.antt =====
-- The ring is a queue: bytes come out in the order in which they went in.
use cs162_group.Prelude.{
  ℕ, zero, suc, ◌+◌, ◌-◌, ◌%◌, ◌<◌, ◌≡◌, ◌≢◌, refl, ap, ◌∙◌, true, false, Option, none, some, List,
  [], ◌∷◌, ◌++◌, ◌>>=◌, arith, inl, inr, length, length-set, get_or, set, Returns, Option-cases,
}
use mathlib.Core.Path.{ap₂, subst}
use cs162_group.Threads.{Kernel, assign, ready, is_blocked, thread_unblock}
use cs162_group.Intq.{
  Intq, Condition, not_full_cond, not_empty_cond, intq_bufsize, next, intq_empty, intq_full, waiter,
  blocks, signal, get_byte, put_byte,
}

-- The bytes in the queue, the oldest first.
abbrev pub bytes_at : List ℕ → ℕ → ℕ → List ℕ
bytes_at buf pos zero = []
bytes_at buf pos (suc n) = get_or buf pos 0 ∷ bytes_at buf ((pos + 1) % intq_bufsize) n

abbrev pub held : Intq → ℕ
held q = (q.head + intq_bufsize - q.tail) % intq_bufsize

abbrev pub contents : Intq → List ℕ
contents q = bytes_at q.buf q.tail (held q)

pub record IsRing (q : Intq) : Type 0 where
  pub sized : length q.buf ≡ intq_bufsize
  pub head : q.head < intq_bufsize
  pub tail : q.tail < intq_bufsize

-- A waiting thread is one, and blocked.
abbrev pub CanWake : Option ℕ → Kernel → Type 0
CanWake none k = Unit
CanWake (some t) k = (k.magic t ≡ true) × (is_blocked (k.status t) ≡ true)

get_or-set_self : (xs : List ℕ) (i b : ℕ) → i < length xs → get_or (set xs i b) i 0 ≡ b
get_or-set_self [] i b h = absurd (omega arith)
get_or-set_self (x ∷ xs) zero b h = refl
get_or-set_self (x ∷ xs) (suc i) b h = get_or-set_self xs i b (omega arith)

get_or-set_other : (xs : List ℕ) (i j b : ℕ) → i ≢ j → get_or (set xs i b) j 0 ≡ get_or xs j 0
get_or-set_other [] i j b h = refl
get_or-set_other (x ∷ xs) zero zero b h = absurd (h refl)
get_or-set_other (x ∷ xs) zero (suc j) b h = refl
get_or-set_other (x ∷ xs) (suc i) zero b h = refl
get_or-set_other (x ∷ xs) (suc i) (suc j) b h = get_or-set_other xs i j b (λ e. h (ap suc e))

-- A byte after the newest one.
bytes_at-set :
    (buf : List ℕ) (head b n pos : ℕ)
    → length buf ≡ intq_bufsize
    → head < intq_bufsize
    → pos < intq_bufsize
    → n < intq_bufsize
    → (pos + n) % intq_bufsize ≡ head
    → bytes_at (set buf head b) pos (suc n) ≡ bytes_at buf pos n ++ b ∷ []
bytes_at-set buf head b zero pos len h p small e =
    let at : pos ≡ head = omega (arith, e, p) in
    ap (λ x. x ∷ [])
      (ap (λ i. get_or (set buf head b) i 0) at
        ∙ get_or-set_self buf head b (omega (arith, len, h)))
bytes_at-set buf head b (suc n) pos len h p small e =
    let other : head ≢ pos = λ q. omega (arith, e, q, p, small) in
    ap₂ ◌∷◌ (get_or-set_other buf head pos b other) (
      bytes_at-set buf head b n ((pos + 1) % intq_bufsize) len h (omega arith)
        (omega (arith, small)) (omega (arith, e)))

-- The kernel after a thread is unblocked.
abbrev readied : ℕ → Kernel → Kernel
readied t k = record k { ready_list = k.ready_list ++ t ∷ []; status = assign k.status t ready }

signal-Returns :
    (c : Condition) (q : Intq) (k : Kernel)
    → blocks c q ≡ false
    → CanWake (waiter c q) k
    → Returns (signal c q k) λ r. (r.0.buf ≡ q.buf) × (r.0.head ≡ q.head) × (r.0.tail ≡ q.tail)
unfolding signal thread_unblock
signal-Returns not_full_cond q k open' can = elim (Option-cases q.not_full) [
  | inl e ↦ ((q, k), simp (open', e) refl, (refl, refl, refl))
  | inr (t, e) ↦
      let (live, blocked') : CanWake (some t) k = subst (λ w. CanWake w k) e can in
      (
        (record q { not_full = none }, readied t k),
        rw (open', e, live, blocked') refl,
        (refl, refl, refl),
      )
]
signal-Returns not_empty_cond q k open' can = elim (Option-cases q.not_empty) [
  | inl e ↦ ((q, k), simp (open', e) refl, (refl, refl, refl))
  | inr (t, e) ↦
      let (live, blocked') : CanWake (some t) k = subst (λ w. CanWake w k) e can in
      (
        (record q { not_empty = none }, readied t k),
        rw (open', e, live, blocked') refl,
        (refl, refl, refl),
      )
]

held_more :
    (h t : ℕ)
    → h < intq_bufsize
    → t < intq_bufsize
    → (h + 1) % intq_bufsize ≢ t
    → ((h + 1) % intq_bufsize + intq_bufsize - t) % intq_bufsize
      ≡ suc ((h + intq_bufsize - t) % intq_bufsize)
held_more h t a b ne = omega (arith, a, b, ne)

held_less :
    (h t : ℕ)
    → h < intq_bufsize
    → t < intq_bufsize
    → h ≢ t
    → (h + intq_bufsize - t) % intq_bufsize
      ≡ suc ((h + intq_bufsize - (t + 1) % intq_bufsize) % intq_bufsize)
held_less h t a b ne = omega (arith, a, b, ne)

held_place :
    (h t : ℕ)
    → h < intq_bufsize
    → t < intq_bufsize
    → (t + (h + intq_bufsize - t) % intq_bufsize) % intq_bufsize ≡ h
held_place h t a b = omega (arith, a, b)

module _ (q : Intq) (k : Kernel) (ring : IsRing q) where
  abbrev put_in : ℕ → Intq
  put_in byte = record q { buf = set q.buf q.head byte; head = next q.head }

  -- With the byte in the queue is not empty, and with one taken out it is not full.
  put_open : (byte : ℕ) → intq_full q ≡ false → intq_empty (put_in byte) ≡ false
  unfolding next intq_full intq_empty
  put_open byte room = room

  get_open : intq_empty q ≡ false → intq_full (record q { tail = next q.tail }) ≡ false
  unfolding next intq_full intq_empty
  get_open some' =
      let ne : q.head ≢ q.tail = λ h. ground (arith, some', h) in
      let apart : (q.head + 1) % intq_bufsize ≢ (q.tail + 1) % intq_bufsize =
        λ e. ne (omega (arith, e, ring.head, ring.tail)) in
      ground (arith, apart)

  put-contents :
      (byte : ℕ)
      → intq_full q ≡ false
      → (r : Intq) → r.buf ≡ (put_in byte).buf
      → r.head ≡ (put_in byte).head
      → r.tail ≡ q.tail
      → IsRing r × (contents r ≡ contents q ++ byte ∷ [])
  unfolding next intq_full
  put-contents byte room r e e' e'' =
      let more : ((q.head + 1) % intq_bufsize + intq_bufsize - q.tail) % intq_bufsize
          ≡ suc (held q) =
        held_more q.head q.tail ring.head ring.tail (ground (arith, room)) in
      let place : (q.tail + held q) % intq_bufsize ≡ q.head =
        held_place q.head q.tail ring.head ring.tail in
      (
        record {
          sized = ap length e ∙ length-set q.buf q.head byte ∙ ring.sized;
          head = rw e' (omega arith);
          tail = rw e'' ring.tail;
        },
        rw (e, e', e'', more)
            (bytes_at-set q.buf q.head byte (held q) q.tail ring.sized ring.head ring.tail
              (omega arith) place),
      )

  get-contents :
      intq_empty q ≡ false
      → (r : Intq) → r.buf ≡ q.buf
      → r.head ≡ q.head
      → r.tail ≡ next q.tail
      → IsRing r × (contents q ≡ get_or q.buf q.tail 0 ∷ contents r)
  unfolding next intq_empty
  get-contents some' r e e' e'' =
      let ne : q.head ≢ q.tail = λ h. ground (arith, some', h) in
      let less : held q
          ≡ suc ((q.head + intq_bufsize - (q.tail + 1) % intq_bufsize) % intq_bufsize) =
        held_less q.head q.tail ring.head ring.tail ne in
      (
        record {
          sized = ap length e ∙ ring.sized;
          head = rw e' ring.head;
          tail = rw e'' (omega arith);
        },
        rw (e, e', e'', less) refl,
      )

-- On a ring with places below 64, whose waiting threads are blocked, a byte that is put into a queue that is
-- not full is behind all that the queue holds, and what is taken from a queue that is not empty is
-- the oldest byte, the others staying in order; no assertion fails and the ring stays one.
pub put-get :
    (q : Intq) (k : Kernel) (byte : ℕ)
    → IsRing q
    → CanWake q.not_empty k
    → CanWake q.not_full k
    → (intq_full q ≡ false
        → Returns (put_byte byte q k) λ r. IsRing r.0 × (contents r.0 ≡ contents q ++ byte ∷ []))
      × (intq_empty q ≡ false
          → Returns (get_byte q k) λ r. IsRing r.1 × (contents q ≡ r.0 ∷ contents r.1))
unfolding put_byte get_byte
put-get q k byte ring can can' = (
  (λ room.
      let ((r, k'), run, (e, e', e'')) =
        signal-Returns not_empty_cond (put_in q k ring byte) k (put_open q k ring byte room) can in
      ((r, k'), run, put-contents q k ring byte room r e e' e'')),
  (λ some'.
      let ((r, k'), run, (e, e', e'')) =
        signal-Returns not_full_cond (record q { tail = next q.tail }) k (get_open q k ring some')
          can' in
      (
        (get_or q.buf q.tail 0, r, k'),
        rw (run, ◌>>=◌) refl,
        get-contents q k ring some' r e e' e'',
      )),
)
