-- ===== src/Ajax/Thread/Sends.antt =====
-- From an answer of the server, through parse_events, to the datagrams of the thread of src/ajax_mgr.c.
use agility_contest_serial_c.Base.{
  ℕ, suc, ◌^◌, ◌<◌, ◌≤◌, ◌≡◌, refl, Bool, true, Option, some, List, pos, Text, atoi, length, done,
}
use agility_contest_serial_c.Events.{Properties, ReadJson, Event}
use agility_contest_serial_c.Events.Batch.{ReadDocument}
use agility_contest_serial_c.Events.Batch.Rows.{
  RowsOf, Processed, id_after, config_after, stamp_after, commands_of, parse_events-Processed,
}
use agility_contest_serial_c.Ajax.Thread.{
  Perform, Answers, accepted, Link, link_round, ajax_wait_for_events, events_url, answer_events,
}
use agility_contest_serial_c.Ajax.Thread.Refused.{IsAnswered, requests, send_commands-requests}

module _ {N : Type 0} (perform : Perform N) (read_document : ReadDocument) (read_json : ReadJson)
    (calloc : ℕ → Bool) where
  -- When the address of events_url, from the last event on, is answered with a row for each event, as many as the
  -- total at most, which is below 2147483647, the array for them can be had, the events can be processed and every
  -- request is answered, a round sends the command of every event that has one, with the name of the manager in
  -- front, in the order of the events; the next round asks from the last of them on.
  pub link_round-Processed :
      (a : Answers) (l : Link N) (json total : Text) (net : N) (k : ℕ)
      (rows : List (Option Properties)) (evs : List (Text × Text)) {es : List Event}
      → perform (events_url l.config l.evtid l.timestamp) l.net ≡ (some json, net)
      → read_document json ≡ some (record { total = some total; rows = some rows })
      → RowsOf rows evs
      → atoi total ≡ pos k
      → suc k < 2 ^ 31
      → length evs ≤ k
      → calloc (suc k) ≡ true
      → Processed read_json evs l.config l.timestamp es
      → IsAnswered a
      → link_round perform read_document read_json calloc a (record l { license = accepted })
        ≡ done (
          requests (commands_of es),
          record {
            config = config_after l.config es;
            evtid = id_after l.evtid evs;
            timestamp = stamp_after l.timestamp es;
            license = accepted;
            net = net;
          },
        )
  unfolding link_round ajax_wait_for_events answer_events
  link_round-Processed a l json total net k rows evs {es = es} brings parsed all number small few
        space runs answers =
      let (batch, _) =
        parse_events-Processed read_document read_json calloc l.config json total l.evtid
          l.timestamp k rows evs parsed all number small few space runs in
      rw brings (rw batch (rw (send_commands-requests a (commands_of es) answers) refl))
