-- ===== src/Queue/Pick.antt =====
-- queue_pick and queue_size of src/sc_tools.c
use Prim.Native.Nat.{min}
use mathlib.Core.Option
use agility_contest_serial_c.Base.{
  ℕ, zero, suc, ◌-◌, ◌<◌, ◌^◌, ◌≡◌, refl, ◌≢◌, false, Option, none, some, [], ◌∷◌, ◌++◌, arith,
  ◌==◌, leb, if◌then◌else◌, ℤ, pos, negsuc, ltb_ℤ, ◌+ℤ◌, ◌-ℤ◌, wrap32, Text, done, length,
  length-append, get_elem?, get_elem?-some, Bool-cases, ◌∙◌, ap, inl, inr,
}
use agility_contest_serial_c.Queue.{
  Ptr, null, Item, Queue, Heap, load, pick_loop, queue_pick, queue_size,
}
use agility_contest_serial_c.Queue.Chain.{
  Entry, Entries, item, Chain, nil, cons, IsQueue, oldest, Chain-oldest, load-some,
}

-- the entry of the smallest index that is at least `k`, where the newest has the index `n - 1`
abbrev pub entry_from : ℕ → ℕ → Entries → Option Entry
entry_from k n es = if leb n k then none else get_elem? es (min (n - 1 - k) (length es - 1))

abbrev pub msg_or : Text → Option Entry → Text
msg_or m none = m
msg_or m (some e) = e.msg

msg_or-get_elem? :
    (m d : Text) (es : Entries) (i : ℕ)
    → i < length es
    → msg_or m (get_elem? es i) ≡ msg_or d (get_elem? es i)
msg_or-get_elem? m d [] i h = absurd (omega arith)
msg_or-get_elem? m d (e ∷ es) zero h = refl
msg_or-get_elem? m d (e ∷ es) (suc i) h = msg_or-get_elem? m d es i (omega arith)

-- A round of the loop: an entry below `k` ends the search, any other is the nearest so far.
msg_or-entry_from :
    (k n : ℕ) (m : Text) (e : Entry) (es : Entries)
    → msg_or (if ltb_ℤ (pos n) (pos k) then m else e.msg) (entry_from k n es)
      ≡ msg_or m (entry_from k (suc n) (e ∷ es))
msg_or-entry_from k n m e [] = ground arith
msg_or-entry_from k n m e (d ∷ es) = elim (Bool-cases (leb n k)) [
  | inl low ↦ ground arith
  | inr high ↦
      let i : ℕ = min (n - 1 - k) (length es) in
      let same : min (n - k) (suc (length es)) ≡ suc i = ground arith in
      ground (arith, msg_or-get_elem? e.msg m (d ∷ es) i (omega arith))
]

-- A round of the loop of queue_pick reads the item and goes on behind it.
pick_loop_step :
    (fuel : ℕ) (id : ℤ) {p : Ptr} (m : Text) (h : Heap) {i : Item}
    → p ≢ null
    → h p ≡ some i
    → pick_loop (suc fuel) id p m h
      ≡ pick_loop fuel id i.next (if ltb_ℤ i.index id then m else i.msg) h
unfolding pick_loop
pick_loop_step fuel id {p} m h ne holds = ground arith

pick_loop-entry_from :
    (fuel k : ℕ) {h : Heap} {n : ℕ} {p : Ptr} {es : Entries} (m : Text)
    → Chain h n p es
    → length es < fuel
    → pick_loop fuel (pos k) p m h ≡ done (msg_or m (entry_from k n es))
pick_loop-entry_from zero k m c f = absurd (omega arith)
pick_loop-entry_from (suc fuel) k {n} m nil f = unfold pick_loop in ground arith
pick_loop-entry_from (suc fuel) k {h} m (cons {n} {q} {e} {es} ne holds new rest) f =
    pick_loop_step fuel (pos k) m h ne holds
    ∙ pick_loop-entry_from fuel k (if ltb_ℤ (pos n) (pos k) then m else e.msg) rest (omega arith)
    ∙ ap done (msg_or-entry_from k n m e es)

-- the newest item of a chain that is not empty
Chain-newest :
    {h : Heap} {n : ℕ} {p : Ptr} {e : Entry} {es : Entries}
    → Chain h n p (e ∷ es)
    → (k : ℕ) × (r : Ptr) × (load p h ≡ done (item k e r)) × (n ≡ suc k)
Chain-newest {h} (cons {n} {q} ne holds new rest) = (n, q, load-some h ne holds, refl)

-- the address of an entry is not NULL
oldest-ne-null :
    {h : Heap} {n : ℕ} {p : Ptr} (e : Entry) (es : Entries)
    → Chain h n p (e ∷ es)
    → oldest (e ∷ es) ≢ null
oldest-ne-null e [] (cons ne holds new rest) = ne
oldest-ne-null e (d ∷ es) (cons ne holds new rest) = oldest-ne-null d es rest

module _ {h : Heap} {q : Queue} {n : ℕ} where
  -- queue_pick with a negative id returns the oldest message.
  pub queue_pick-oldest :
      (fuel i : ℕ) (es : Entries) (e : Entry)
      → IsQueue h q n (es ++ e ∷ [])
      → queue_pick fuel (negsuc i) (some q) h ≡ done (some e.msg)
  unfolding queue_pick
  queue_pick-oldest fuel i es e is =
      let (at, ne, (k, holds, _)) = Chain-oldest es e is.chain in
      rw (is.first, at, load-some h ne holds) (ground arith)

  -- queue_pick with an id of at least 0 returns, with enough fuel for the loop, the message of the
  -- smallest index that is at least the id, and NULL if there is none.
  pub queue_pick-entry_from :
      (fuel k : ℕ) (e : Entry) (es : Entries)
      → IsQueue h q n (e ∷ es)
      → suc (length es) < fuel
      → queue_pick fuel (pos k) (some q) h
        ≡ done (Option.map (λ (d : Entry). d.msg) (entry_from k n (e ∷ es)))
  unfolding queue_pick
  queue_pick-entry_from fuel k e es is f =
      let (m, r, at, same) = Chain-newest is.chain in
      let some_first : (q.first_out == null) ≡ false =
        rw is.first (ground (arith, oldest-ne-null e es is.chain)) in
      let found = pick_loop-entry_from fuel k e.msg is.chain (omega arith) in
      let i : ℕ = min (n - 1 - k) (suc (length es) - 1) in
      let (d, got) = get_elem?-some (e ∷ es) i (omega arith) in
      rw (some_first, at, found) (ground (arith, got))

  -- queue_size is the number of messages, while the indices stay below 2^31.
  pub queue_size-length :
      (e : Entry) (es : Entries)
      → IsQueue h q n (es ++ e ∷ [])
      → n < 2 ^ 31
      → queue_size (some q) h ≡ done (pos (length (es ++ e ∷ [])))
  unfolding queue_size wrap32 ◌+ℤ◌ ◌-ℤ◌
  queue_size-length e [] is room =
      let (m, r, at, same) = Chain-newest is.chain in
      let (here, ne, (k, holds, count)) = Chain-oldest [] e is.chain in
      rw (is.first, at, load-some h ne holds) (ground arith)
  queue_size-length e (d ∷ es) is room =
      let (m, r, at, same) = Chain-newest is.chain in
      let (here, ne, (k, holds, count)) = Chain-oldest (d ∷ es) e is.chain in
      rw (is.first, here, at, load-some h ne holds) (ground (arith, length-append es (e ∷ [])))
