-- ===== src/Queue/Put.antt =====
-- queue_put of src/sc_tools.c
use agility_contest_serial_c.Base.{
  ℕ, suc, ◌<◌, ◌^◌, ◌≡◌, refl, ◌≢◌, true, false, none, some, ◌∷◌, arith, ◌==◌, if◌then◌else◌, ℤ,
  pos, ◌+ℤ◌, wrap32, Text, done,
}
use agility_contest_serial_c.Queue.{Ptr, null, Queue, Heap, update, queue_put}
use agility_contest_serial_c.Queue.Chain.{
  Entry, Entries, item, has, Chain, nil, cons, IsQueue, oldest, Chain-frame, Chain-unused,
}

abbrev pub entry : Ptr → ℤ → Text → Entry
entry fresh now m = record { address = fresh; expire = pos 15000 +ℤ now; msg = m }

next_index : (n : ℕ) → suc n < 2 ^ 31 → wrap32 (pos n +ℤ pos 1) ≡ pos (suc n)
unfolding wrap32 ◌+ℤ◌
next_index n h = ground arith

-- The oldest entry stays the first to go out, and a first entry is that itself.
first_after :
    {h : Heap} {n : ℕ} {p first : Ptr} {es : Entries} (e : Entry)
    → Chain h n p es
    → first ≡ oldest es
    → (if p == null then e.address else first) ≡ oldest (e ∷ es)
first_after e nil f = refl
first_after e (cons ne holds new rest) f = ground arith

-- Given an unused address and a copied text, queue_put puts the message in front of the others with
-- the queue's next index and an expiry 15 seconds from now, and the queue stays well formed.
pub queue_put-IsQueue :
    {h : Heap} {q : Queue} {n : ℕ} {es : Entries} (fresh : Ptr) (now : ℤ) (m : Text)
    → IsQueue h q n es
    → fresh ≢ null
    → h fresh ≡ none
    → suc n < 2 ^ 31
    → (q' : Queue) × (h' : Heap) × (queue_put fresh true now (some q) (some m) h
        ≡ done (fresh, some q', h'))
      × IsQueue h' q' (suc n) (entry fresh now m ∷ es)
unfolding queue_put
queue_put-IsQueue {h} {q} {n} {es} fresh now m is ne unused room =
    let e = entry fresh now m in
    let out : has fresh es ≡ false = Chain-unused fresh is.chain unused in
    let h' = update h fresh (some (item n e q.last_out)) in
    (
      record {
        name = q.name;
        last_index = wrap32 (q.last_index +ℤ pos 1);
        first_out = if q.last_out == null then fresh else q.first_out;
        last_out = fresh;
      },
      h',
      rw is.index (ground arith),
      record {
        chain =
            cons {n = n} {q = q.last_out} {e = e} {es = es} ne (unfold update in ground arith) out
              (Chain-frame h' is.chain (unfold update in ground arith));
        first = first_after e is.chain is.first;
        index = rw is.index (next_index n room);
      },
    )
