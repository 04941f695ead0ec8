-- ===== src/Web/Server.antt =====
-- The callbacks of src/web_server.c that the page calls: readData, which picks a command for it, and
-- writeData, which puts a command from it. The HTTP server is a parameter: the values of the query.
use agility_contest_serial_c.Base.{
  ℕ, Bool, Option, none, some, [], ◌++◌, ◌==◌, ltb, if◌then◌else◌, ℤ, pos, negsuc, ltb_ℤ, eqb_ℤ,
  ◌+ℤ◌, wrap32, Text, codes, atoi, print_int, map, length, Run, done, fault, ◌>>=◌,
}
use agility_contest_serial_c.Config.{Status}
use agility_contest_serial_c.Queue.{Ptr, Queue, Heap, Queued, queue_put, queue_pick}

-- the size of `line` in readData, and of `buffer` in writeData
abbrev pub line_size : ℕ
line_size = 1024

abbrev pub buffer_size : ℕ
buffer_size = 128

-- a member of the JSON object, and the separator in front of the next
abbrev member : Text → Text → Text
member key value = codes "\"" ++ (key ++ (codes "\":\"" ++ (value ++ codes "\"")))

abbrev command_member : Option Text → Text
command_member none = []
command_member (some msg) = codes "," ++ member (codes "Command") msg

unfoldable pub page_text : Status → ℤ → ℤ → Option Text → Text
unfolding print_int
page_text s ring cmdid msg =
    let counts =
      codes "{"
      ++ (member (codes "F") (print_int (wrap32 (s.faults +ℤ s.touchs)))
          ++ (codes ","
              ++ (member (codes "R") (print_int s.refusals)
                  ++ (codes ","
                      ++ (member (codes "E") (print_int s.eliminated)
                          ++ (codes "," ++ member (codes "D") (print_int s.numero))))))) in
    let id = codes "," ++ member (codes "ID") (print_int cmdid) in
    let ring_member =
      if eqb_ℤ cmdid (pos 0) then codes "," ++ member (codes "Ring") (print_int ring) else [] in
    counts ++ (command_member msg ++ (id ++ (ring_member ++ codes "}")))

-- the id that is given to queue_pick
unfoldable pub picked_id : ℤ → ℤ
picked_id cmdid = if ltb_ℤ (pos 0) cmdid then cmdid else negsuc 0

-- The value of the first item of the query, `none` where there is no query. The text is sent.
unfoldable pub read_data : ℕ → Status → ℤ → Option Queue → Heap → Option Text → Run Text
unfolding atoi queue_pick page_text picked_id
read_data fuel s ring output_queue h none = fault
read_data fuel s ring output_queue h (some id_value) =
    let cmdid = atoi id_value in
    do
      msg ← queue_pick fuel (picked_id cmdid) output_queue h
      let line = page_text s ring cmdid msg
      (if ltb (length line) line_size then done line else fault)

-- every "+" becomes a space
abbrev pub plus_to_space : Text → Text
plus_to_space s = map (λ (c : ℕ). if c == b'+' then b' ' else c) s

-- What is left of the input queue; {"Result":"OK"} is sent in any case.
unfoldable pub write_data : Ptr → Bool → ℤ → Option Queue → Heap → Option Text → Queued Ptr
unfolding queue_put
write_data fresh copied now input_queue h none = fault
write_data fresh copied now input_queue h (some cmd_value) =
    if ltb (length cmd_value) buffer_size
    then queue_put fresh copied now input_queue (some (plus_to_space cmd_value)) h
    else fault
