-- ===== src/Queue.antt =====
-- The message queue of src/sc_tools.c (queue_create to queue_expire). Items are linked from the newest,
-- `last_out`, to the oldest, `first_out`. An item lives at an address of a heap; what malloc returns is
-- an argument (`null` when it fails).
pub mod Chain
pub mod Put
pub mod Get
pub mod Pick
mod Tests
use agility_contest_serial_c.Base.{
  ℕ, zero, suc, Bool, not, Option, none, some, ◌==◌, if◌then◌else◌, ℤ, pos, ltb_ℤ, ◌+ℤ◌, ◌-ℤ◌,
  wrap32, Text, Run, done, fault, ◌>>=◌,
}

abbrev pub Ptr : Type 0
Ptr = ℕ

abbrev pub null : Ptr
null = 0

-- qitem_t
pub record Item : Type 0 where
  pub expire : ℤ
  pub index : ℤ
  pub msg : Text
  pub next : Ptr

-- queue_t
pub record Queue : Type 0 where
  pub name : Text
  pub last_index : ℤ
  pub first_out : Ptr
  pub last_out : Ptr

abbrev pub Heap : Type 0
Heap = Ptr → Option Item

unfoldable pub update : Heap → Ptr → Option Item → Heap
update h p c a = if a == p then c else h a

-- `*p`, undefined at NULL and at an address that holds no item
unfoldable pub load : Ptr → Heap → Run Item
load p h = if p == null then fault else elim (h p) [ none ↦ fault | some i ↦ done i ]

-- What an operation on a queue leaves: its result, the queue and the heap.
abbrev pub Queued : Type 0 → Type 0
Queued A = Run (A × Option Queue × Heap)

-- calloc leaves the counter and the pointers 0; `ok` tells that it succeeded.
unfoldable pub queue_create : Bool → Text → Option Queue
queue_create ok name =
    if ok
    then some (record { name = name; last_index = pos 0; first_out = null; last_out = null })
    else none

-- The loop of queue_destroy frees an item and goes on with the one it is linked to.
unfoldable pub destroy_loop : ℕ → Ptr → Heap → Run Heap
unfolding load
destroy_loop zero pt h = fault
destroy_loop (suc fuel) pt h =
    let rest = λ (item : Item). destroy_loop fuel item.next (update h pt none) in
    if pt == null then done h else (load pt h >>= rest)

-- what is left of the heap
unfoldable pub queue_destroy : ℕ → Option Queue → Heap → Run Heap
unfolding destroy_loop
queue_destroy fuel none h = done h
queue_destroy fuel (some q) h = destroy_loop fuel q.first_out h

-- `fresh` is what calloc returns for the item, `copied` tells that strdup succeeded, and `now` is the
-- time in milliseconds.
unfoldable pub queue_put : Ptr → Bool → ℤ → Option Queue → Option Text → Heap → Queued Ptr
queue_put fresh copied now none msg h = done (null, none, h)
queue_put fresh copied now (some q) none h = done (null, some q, h)
queue_put fresh copied now (some q) (some m) h =
    if fresh == null
    then done (null, some q, h)
    else if not copied
    then done (null, some q, h)
    else done (
      fresh,
      some (record q {
        last_index = wrap32 (q.last_index +ℤ pos 1);
        last_out = fresh;
        first_out = if q.last_out == null then fresh else q.first_out;
      }),
      update h fresh (
          some (record {
            expire = pos 15000 +ℤ now;
            index = q.last_index;
            msg = m;
            next = q.last_out;
          })),
    )

unfoldable pub queue_get : Option Queue → Heap → Queued (Option Text)
unfolding load
queue_get none h = done (none, none, h)
queue_get (some q) h = if q.first_out == null then done (none, some q, h) else do
  item ← load q.first_out h
  done (
    some item.msg,
    some (record q {
      first_out = item.next;
      last_out = if item.next == null then null else q.last_out;
    }),
    update h q.first_out none,
  )

-- The loop of queue_pick, from `pt` on, with the message of `nearest`.
unfoldable pub pick_loop : ℕ → ℤ → Ptr → Text → Heap → Run Text
unfolding load
pick_loop zero id pt nearest h = fault
pick_loop (suc fuel) id pt nearest h =
    let rest = λ (item : Item).
      pick_loop fuel id item.next (if ltb_ℤ item.index id then nearest else item.msg) h in
    if pt == null then done nearest else (load pt h >>= rest)

-- The strdup of the result is taken to succeed.
unfoldable pub queue_pick : ℕ → ℤ → Option Queue → Heap → Run (Option Text)
unfolding load pick_loop
queue_pick fuel id none h = done none
queue_pick fuel id (some q) h =
    if q.first_out == null
    then done none
    else if ltb_ℤ id (pos 0)
    then (do item ← load q.first_out h; done (some item.msg))
    else do
      newest ← load q.last_out h
      if ltb_ℤ newest.index id
          then done none
          else (do m ← pick_loop fuel id q.last_out newest.msg h; done (some m))

-- The int result is converted to size_t.
unfoldable pub queue_size : Option Queue → Heap → Run ℤ
unfolding load
queue_size none h = done (pos 0)
queue_size (some q) h = if q.first_out == null then done (pos 0) else do
  newest ← load q.last_out h
  oldest ← load q.first_out h
  done (wrap32 (wrap32 (pos 1 +ℤ newest.index) -ℤ oldest.index))

-- `clock k` is the k-th reading of the time. Each round frees the oldest item.
unfoldable pub queue_expire : ℕ → (ℕ → ℤ) → Option Queue → Heap → Queued Unit
unfolding load queue_get
queue_expire fuel clock none h = done (tt, none, h)
queue_expire zero clock (some q) h = fault
queue_expire (suc fuel) clock (some q) h =
    let next = λ (q' : Option Queue) (h' : Heap). queue_expire fuel (λ k. clock (suc k)) q' h' in
    if q.first_out == null then done (tt, some q, h) else do
      item ← load q.first_out h
      if ltb_ℤ (clock 0) item.expire
          then done (tt, some q, h)
          else do (msg, q', h') ← queue_get (some q) h; next q' h'
