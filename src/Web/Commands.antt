-- ===== src/Web/Commands.antt =====
-- The page and the thread of src/web_mgr.c over their queues: which command the page is given, and how a
-- command of the page reaches the main loop.
use mathlib.Core.Option
use agility_contest_serial_c.Base.{
  ℕ, suc, ◌^◌, ◌<◌, ◌≡◌, ◌≢◌, refl, true, false, Option, none, some, [], ◌∷◌, ltb, ℤ, pos, Text,
  print_nat, atoi-print, length, done, arith,
}
use agility_contest_serial_c.Config.{Status}
use agility_contest_serial_c.Queue.{Ptr, null, Queue, Heap, queue_expire}
use agility_contest_serial_c.Queue.Chain.{Entry, Entries, IsQueue}
use agility_contest_serial_c.Queue.Put.{queue_put-IsQueue, entry}
use agility_contest_serial_c.Queue.Get.{queue_get-oldest}
use agility_contest_serial_c.Queue.Pick.{entry_from, queue_pick-entry_from}
use agility_contest_serial_c.Web.Server.{
  read_data, write_data, page_text, plus_to_space, picked_id, line_size, buffer_size,
}
use agility_contest_serial_c.Web.Thread.{Round, web_request, expire_output, send_command, web_round}

-- the message that a page is given which asks from the id `k` on
abbrev pub message_from : ℕ → ℕ → Entries → Option Text
message_from k n es = Option.map (λ (d : Entry). d.msg) (entry_from k n es)

picked_id-suc : (k : ℕ) → picked_id (pos (suc k)) ≡ pos (suc k)
unfolding picked_id
picked_id-suc k = ground arith

-- The page that asks with an id above 0 is given the message of the smallest index of a well-formed queue
-- that is at least the id, if there is one, with the counters of the run and the id, as long as that text
-- is shorter than 1024 bytes and the fuel is enough for the queue.
pub read_data-message_from :
    {h : Heap} {q : Queue} {n : ℕ} (fuel k : ℕ) (s : Status) (ring : ℤ) (e : Entry) (es : Entries)
    → IsQueue h q n (e ∷ es)
    → suc (length es) < fuel
    → suc k < 2 ^ 31
    → length (page_text s ring (pos (suc k)) (message_from (suc k) n (e ∷ es))) < line_size
    → read_data fuel s ring (some q) h (some (print_nat (suc k)))
      ≡ done (page_text s ring (pos (suc k)) (message_from (suc k) n (e ∷ es)))
unfolding read_data
read_data-message_from {n} fuel k s ring e es is enough small fits =
    let short : ltb (length (page_text s ring (pos (suc k)) (message_from (suc k) n (e ∷ es))))
          line_size
        ≡ true =
      ground (arith, fits) in
    rw (atoi-print (suc k) small)
      (rw (picked_id-suc k, queue_pick-entry_from fuel (suc k) e es is enough) (rw short refl))

-- the round of the thread that follows when nothing is kept for the page
abbrev pub answered : (ℕ → ℤ) → Round
answered clock = record { sent = true; received = some 2; clock = clock; exits = false }

-- A command of the page that is shorter than 128 bytes and not empty, put into a well-formed input queue that is
-- empty when calloc and strdup succeed, is sent to the main loop by the next round of the thread, with its
-- name in front and spaces for the plus signs, and is taken from the queue; the messages for the page expire.
pub write_data-sends :
    {h : Heap} {q : Queue} {n : ℕ} (fuel : ℕ) (fresh : Ptr) (now : ℤ) (clock : ℕ → ℤ)
    (output : Queue) (c : ℕ) (v : Text)
    → IsQueue h q n []
    → fresh ≢ null
    → h fresh ≡ none
    → suc n < 2 ^ 31
    → length (c ∷ v) < buffer_size
    → output.first_out ≡ null
    → (q' : Queue) × (h' : Heap) × (q'' : Queue) × (h'' : Heap) × (write_data fresh true now
          (some q)
          h
          (some (c ∷ v))
        ≡ done (fresh, some q', h'))
      × (web_round
            (suc fuel)
            (record { input_queue = some q'; output_queue = some output; heap = h' })
            (answered clock)
          ≡ done (
            some (web_request (plus_to_space (c ∷ v))),
            record { input_queue = some q''; output_queue = some output; heap = h'' },
            true,
          ))
      × IsQueue h'' q'' (suc n) []
unfolding write_data web_round send_command expire_output queue_expire
write_data-sends fuel fresh now clock output c v is ne unused room short silent =
    let fits : ltb (length (c ∷ v)) buffer_size ≡ true = ground (arith, short) in
    let (q', h', puts, is') =
      queue_put-IsQueue fresh now (plus_to_space (c ∷ v)) is ne unused room in
    let (q'', h'', gets, is'', again) =
      queue_get-oldest [] (entry fresh now (plus_to_space (c ∷ v))) is' in
    (q', h', q'', h'', rw fits puts, rw (gets, silent) refl, is'')
