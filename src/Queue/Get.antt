-- ===== src/Queue/Get.antt =====
-- queue_get, queue_expire and queue_destroy of src/sc_tools.c
use agility_contest_serial_c.Base.{
  ℕ, suc, ◌≡◌, refl, true, false, none, some, [], ◌∷◌, ◌++◌, arith, ℤ, ltb_ℤ, done,
}
use agility_contest_serial_c.Queue.{
  null, Queue, Heap, update, queue_get, queue_expire, queue_destroy, destroy_loop,
}
use agility_contest_serial_c.Queue.Chain.{Entry, Entries, nil, IsQueue, Chain-oldest, load-some}

-- queue_get returns the oldest message, and leaves the queue empty: whatever was put behind that
-- message is lost, and the next queue_get returns NULL.
pub queue_get-oldest :
    {h : Heap} {q : Queue} {n : ℕ} (es : Entries) (e : Entry)
    → IsQueue h q n (es ++ e ∷ [])
    → (q' : Queue) × (h' : Heap) × (queue_get (some q) h ≡ done (some e.msg, some q', h'))
      × IsQueue h' q' n []
      × (queue_get (some q') h' ≡ done (none, some q', h'))
unfolding queue_get
queue_get-oldest {h} {q} {n} es e is =
    let (at, ne, (k, holds, _)) = Chain-oldest es e is.chain in
    let q' : Queue = record q { first_out = null; last_out = null } in
    (
      q',
      update h e.address none,
      rw (is.first, at, load-some h ne holds) (ground arith),
      record { chain = nil; first = refl; index = is.index },
      refl,
    )

-- queue_destroy frees the oldest item of a queue and no other.
pub queue_destroy-oldest :
    {h : Heap} {q : Queue} {n : ℕ} (fuel : ℕ) (es : Entries) (e : Entry)
    → IsQueue h q n (es ++ e ∷ [])
    → queue_destroy (suc (suc fuel)) (some q) h ≡ done (update h e.address none)
unfolding queue_destroy destroy_loop
queue_destroy-oldest {h} fuel es e is =
    let (at, ne, (k, holds, _)) = Chain-oldest es e is.chain in
    rw (is.first, at, load-some h ne holds) (ground arith)

module _ {h : Heap} {q : Queue} {n : ℕ} (fuel : ℕ) (clock : ℕ → ℤ) where
  -- queue_expire leaves a queue alone whose oldest message has not expired.
  pub queue_expire-fresh :
      (es : Entries) (e : Entry)
      → IsQueue h q n (es ++ e ∷ [])
      → ltb_ℤ (clock 0) e.expire ≡ true
      → queue_expire (suc fuel) clock (some q) h ≡ done (tt, some q, h)
  unfolding queue_expire
  queue_expire-fresh es e is young =
      let (at, ne, (k, holds, _)) = Chain-oldest es e is.chain in
      rw (is.first, at, load-some h ne holds) (ground arith)

  -- Once the oldest message has expired queue_expire drops every message, expired or not.
  pub queue_expire-all :
      (es : Entries) (e : Entry)
      → IsQueue h q n (es ++ e ∷ [])
      → ltb_ℤ (clock 0) e.expire ≡ false
      → (q' : Queue) × (h' : Heap) × (queue_expire (suc (suc fuel)) clock (some q) h
          ≡ done (tt, some q', h'))
        × IsQueue h' q' n []
  unfolding queue_expire
  queue_expire-all es e is old =
      let (at, ne, (k, holds, _)) = Chain-oldest es e is.chain in
      let q' : Queue = record q { first_out = null; last_out = null } in
      (
        q',
        update h e.address none,
        rw (is.first, at, load-some h ne holds) (ground arith),
        record { chain = nil; first = refl; index = is.index },
      )
