-- ===== src/Web/Tests.antt =====
-- The manager of the web page at a concrete command.
use agility_contest_serial_c.Base.{
  ◌≡◌, ◌<◌, refl, strstr, starts_with, true, none, some, [], ◌∷◌, ◌==◌, if◌then◌else◌, pos, codes,
  tolower, map, Text, print_nat, print_from, print_int, wrap32, ◌+ℤ◌, length, done, arith,
}
use agility_contest_serial_c.Config.{default_status}
use agility_contest_serial_c.Queue.{null, Queue, Heap}
use agility_contest_serial_c.Queue.Chain.{Entry, item, IsQueue, nil, cons}
use agility_contest_serial_c.Tokens.{Tokens}
use agility_contest_serial_c.Dispatch.{World, ManagerHandler}
use agility_contest_serial_c.Web.{Page, Supply, web_entries}
use agility_contest_serial_c.Web.Server.{page_text, read_data}
use agility_contest_serial_c.Web.Commands.{read_data-message_from}
use agility_contest_serial_c.Web.Pages.{Site, Response, default_service, content_type_of}
use agility_contest_serial_c.Web.Pages.Served.{Serves, default_service-Serves}
use agility_contest_serial_c.Web.Puts.{Puts, stop_message, web_entries-Puts}
use agility_contest_serial_c.Tools.Explode.{join}
use agility_contest_serial_c.Parser.{find_index}
use agility_contest_serial_c.Dispatch.Datagrams.{IsServed}
use agility_contest_serial_c.Web.{sc_web}
use agility_contest_serial_c.Web.Chain.{IsSent, write_data-IsServed}
use agility_contest_serial_c.Samples.{main_0, tokens_of, slots_0, world_0}

abbrev supply : Supply
supply = record { calloc = λ h. 1; strdup = λ h. true; now = λ h. pos 100 }

abbrev queue_0 : Queue
queue_0 = record { name = codes "web"; last_index = pos 0; first_out = null; last_out = null }

abbrev heap_0 : Heap
heap_0 a = none

queue_0-IsQueue : IsQueue heap_0 queue_0 0 []
queue_0-IsQueue = record { chain = nil; first = refl; index = refl }

abbrev world_2 : World Page
world_2 = record { main = main_0; app = record { output_queue = some queue_0; heap = heap_0 } }

abbrev stop_tokens : Tokens
stop_tokens = tokens_of (codes "comm_server") (codes "stop") (codes "1200" ∷ codes "ms" ∷ [])

stop_fits : length (join b' ' (codes "stop" ∷ codes "1200" ∷ [])) < 1024
unfolding join
stop_fits = omega arith

-- a token behind those that are counted does not belong to the message
web_entries-Puts_example :
    (handler : ManagerHandler Page) × (web_entries supply 2 ≡ some handler)
    × Puts supply world_2 queue_0 0 [] refl queue_0-IsQueue
        (omega arith)
        refl
        refl
        (omega arith)
        handler
        stop_tokens
        3
        (codes "stop 1200")
unfolding join
web_entries-Puts_example =
    web_entries-Puts supply world_2 queue_0 0 [] refl queue_0-IsQueue (omega arith) refl refl
      (omega arith) stop_tokens (codes "1200" ∷ []) (codes "ms" ∷ []) stop_message refl stop_fits

abbrev entry_1 : Entry
entry_1 = record { address = 7; expire = pos 15000; msg = codes "stop 1200" }

abbrev heap_1 : Heap
heap_1 a = if a == 7 then some (item 1 entry_1 null) else none

abbrev queue_1 : Queue
queue_1 = record { name = codes "output_queue"; last_index = pos 2; first_out = 7; last_out = 7 }

queue_1-IsQueue : IsQueue heap_1 queue_1 2 (entry_1 ∷ [])
queue_1-IsQueue = record { chain = cons (omega arith) refl refl nil; first = refl; index = refl }

page_fits : length (page_text default_status (pos 0) (pos 1) (some (codes "stop 1200"))) < 1024
unfolding page_text print_int print_nat print_from wrap32 ◌+ℤ◌
page_fits = omega arith

read_data-message_from_example :
    read_data 3 default_status (pos 0) (some queue_1) heap_1 (some (print_nat 1))
    ≡ done (page_text default_status (pos 0) (pos 1) (some (codes "stop 1200")))
read_data-message_from_example =
    read_data-message_from 3 0 default_status (pos 0) entry_1 [] queue_1-IsQueue (omega arith)
      (omega arith) page_fits

abbrev site : Site
site = record { getcwd = some (codes "/srv"); read_file = λ f. some (codes "abc") }

default_service-Serves_example :
    (r : Response) × (default_service site (codes "/crono.js") ≡ done r)
    × Serves (codes "text/javascript") (some (codes "abc")) r
unfolding content_type_of strstr starts_with
default_service-Serves_example =
    default_service-Serves site (codes "/srv") (codes "/crono.js") refl (omega arith)

index_lower_stop : find_index (map tolower (codes "STOP")) ≡ some 2
unfolding find_index tolower
index_lower_stop = refl

write_data-IsServed_example :
    (datagram : Text) × IsSent heap_0 queue_0 0 0 1
      (pos 0)
      (λ k. pos 0)
      queue_0
      (codes "STOP+7")
      datagram
    × IsServed slots_0 world_0 datagram 2 sc_web (codes "STOP") (codes "7" ∷ [])
unfolding join
write_data-IsServed_example =
    write_data-IsServed 0 1 (pos 0) (λ k. pos 0) queue_0 queue_0-IsQueue (omega arith) refl
      (omega arith) refl slots_0 world_0 (codes "STOP") (codes "7" ∷ []) (refl, (refl, tt))
      (refl, (refl, tt)) refl (omega arith) (omega arith) (λ e. cc e) index_lower_stop
