-- ===== src/Queue/Tests.antt =====
-- The theorems on queues at a queue of two messages.
use agility_contest_serial_c.Base.{
  ℕ, ◌≡◌, ◌+◌, refl, [], ◌∷◌, none, some, true, ◌==◌, if◌then◌else◌, ℤ, pos, codes, done, arith,
}
use agility_contest_serial_c.Queue.{null, Queue, Heap, queue_put, queue_get}
use agility_contest_serial_c.Queue.Chain.{Entry, item, IsQueue, nil, cons}
use agility_contest_serial_c.Queue.Put.{queue_put-IsQueue, entry}
use agility_contest_serial_c.Queue.Get.{queue_get-oldest}

abbrev older : Entry
older = record { address = 1; expire = pos 20; msg = codes "start 0" }

abbrev newer : Entry
newer = record { address = 2; expire = pos 30; msg = codes "stop 9" }

abbrev two : Queue
two = record { name = codes "web"; last_index = pos 2; first_out = 1; last_out = 2 }

abbrev two_items : Heap
two_items a =
    if a == 1 then some (item 0 older null) else if a == 2 then some (item 1 newer 1) else none

two-IsQueue : IsQueue two_items two 2 (newer ∷ older ∷ [])
two-IsQueue = record {
  chain =
      cons {n = 1} {q = 1} {e = newer} {es = older ∷ []} (omega arith) refl refl
        (cons {n = 0} {q = null} {e = older} {es = []} (omega arith) refl refl nil);
  first = refl;
  index = refl;
}

queue_get-oldest_example :
    (q' : Queue) × (h' : Heap) × (queue_get (some two) two_items
      ≡ done (some (codes "start 0"), some q', h'))
    × IsQueue h' q' 2 []
    × (queue_get (some q') h' ≡ done (none, some q', h'))
queue_get-oldest_example = queue_get-oldest (newer ∷ []) older two-IsQueue

queue_put-IsQueue_example :
    (q' : Queue) × (h' : Heap) × (queue_put 3 true
        (pos 100)
        (some two)
        (some (codes "reset"))
        two_items
      ≡ done (3, some q', h'))
    × IsQueue h' q' 3 (entry 3 (pos 100) (codes "reset") ∷ newer ∷ older ∷ [])
queue_put-IsQueue_example =
    queue_put-IsQueue 3 (pos 100) (codes "reset") two-IsQueue (omega arith) refl (omega arith)

abbrev clock : ℕ → ℤ
clock k = pos (25 + k)

abbrev early : ℕ → ℤ
early k = pos k
