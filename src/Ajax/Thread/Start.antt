-- ===== src/Ajax/Thread/Start.antt =====
-- src/ajax_mgr.c, ajax_manager_thread: the connection, the wait for a session with events, and the loop.
use agility_contest_serial_c.Base.{
  wrap32, ℕ, zero, suc, ◌<◌, Bool, true, false, Option, none, some, List, ◌∷◌, if◌then◌else◌, ℤ,
  pos, ◌+ℤ◌, ltb_ℤ, eqb_ℤ, Text, codes, Run, done, ◌>>=◌, ◌≡◌, refl, arith, length, All,
}
use agility_contest_serial_c.Config.{Configuration}
use agility_contest_serial_c.Events.{ReadJson}
use agility_contest_serial_c.Events.Batch.{ReadDocument}
use agility_contest_serial_c.Ajax.Thread.{
  Perform, Answers, License, refused, warned, Link, connect, ajax_open_session, link_loop,
  request_of, refusal_text,
}
use agility_contest_serial_c.Ajax.Thread.Refused.{IsAnswered, exits, link_loop-refused}

-- how the wait ends: with the last event of the session, with an error, or since the index of the slot is negative
pub data Opening (N : Type 0) : Type 0 where
  opened : ℤ → N → Opening N
  failed : Opening N
  stopped : Opening N

module _ {N : Type 0} (perform : Perform N) (read_document : ReadDocument)
    (read_json : ReadJson) where
  -- the rounds of the wait, of which `tries` come before the index of the slot is negative
  unfoldable pub wait_session : ℕ → Configuration → N → Run (Opening N)
  unfolding ajax_open_session
  wait_session zero c net = done stopped
  wait_session (suc tries) c net = do
    (evtid, net') ← ajax_open_session perform read_document read_json c net
    let again = wait_session tries c net'
    if ltb_ℤ evtid (pos 0)
        then done failed
        else if eqb_ℤ evtid (pos 0)
        then again
        else done (opened evtid net')

  -- The server has no events for `waits` requests, then the last one is `evtid`.
  abbrev pub OpensAfter : ℕ → Configuration → N → ℕ → N → Type 0
  OpensAfter zero c net evtid net' =
      (0 < evtid)
      × (ajax_open_session perform read_document read_json c net ≡ done (pos evtid, net'))
  OpensAfter (suc waits) c net evtid net' =
      (between : N) × (ajax_open_session perform read_document read_json c net
        ≡ done (pos 0, between))
      × OpensAfter waits c between evtid net'

  -- The thread waits until the server has events, and goes on from the last one.
  pub wait_session-OpensAfter :
      (waits tries : ℕ) (c : Configuration) (net : N) (evtid : ℕ) (net' : N)
      → waits < tries
      → OpensAfter waits c net evtid net'
      → wait_session tries c net ≡ done (opened (pos evtid) net')
  unfolding wait_session
  wait_session-OpensAfter waits zero c net evtid net' room h = absurd (omega arith)
  wait_session-OpensAfter zero (suc tries) c net evtid net' room (some_event, answer) =
      let other : eqb_ℤ (pos evtid) (pos 0) ≡ false = ground arith in
      let no_error : ltb_ℤ (pos evtid) (pos 0) ≡ false = ground arith in
      rw answer (rw no_error (rw other refl))
  wait_session-OpensAfter (suc waits) (suc tries) c net evtid net' room (between, answer, h) =
      rw answer (wait_session-OpensAfter waits tries c between evtid net' (omega arith) h)

  module _ (calloc : ℕ → Bool) (connect_udp : Text → ℤ → Bool) (buffers : Bool) where
    -- behind the wait; `buffers` tells whether the calls of calloc in front of the loop succeed
    unfoldable pub enter_loop :
        List Answers → Configuration → License → Opening N → Run (Option (List Text × Link N))
    unfolding link_loop
    enter_loop rounds c license failed = done none
    enter_loop rounds c license stopped = done none
    enter_loop rounds c license (opened evtid net) =
        if buffers
        then (do
          (sent, l) ← link_loop perform read_document read_json calloc rounds (record {
            config = c;
            evtid = evtid;
            timestamp = pos 0;
            license = license;
            net = net;
          })
          done (some (sent, l)))
        else done none

    -- behind ajax_connect_server and ajax_get_permissions
    unfoldable pub open_and_loop :
        ℕ → List Answers → Option (Configuration × License × N) → Run (Option (List Text × Link N))
    unfolding wait_session enter_loop
    open_and_loop tries rounds none = done none
    open_and_loop tries rounds (some (c, license, net)) = do
      opening ← wait_session tries c net
      enter_loop rounds c license opening

    -- The datagrams and what the loop carries behind its rounds; none when the loop is not entered.
    unfoldable pub ajax_manager_thread :
        ℕ → List Answers → Configuration → N → Run (Option (List Text × Link N))
    unfolding connect open_and_loop ◌+ℤ◌ wrap32
    ajax_manager_thread tries rounds c net =
        if connect_udp (codes "localhost") (wrap32 (c.local_port +ℤ c.ring))
        then (do
          connected ← connect perform read_document read_json c net
          open_and_loop tries rounds connected)
        else done none

    -- When the server gives the thread a session without the permission for chronometers, has no events for some
    -- requests and then has one, before the thread is told to end, and every request is sent and answered, the
    -- thread sends one message in its first round and EXIT in each of the others, and asks for no further events.
    pub ajax_manager_thread-refused :
        (waits tries : ℕ) (a : Answers) (rounds : List Answers) (c c' : Configuration)
        (net net' net'' : N) (evtid : ℕ)
        → connect_udp (codes "localhost") (wrap32 (c.local_port +ℤ c.ring)) ≡ true
        → buffers ≡ true
        → connect perform read_document read_json c net ≡ done (some (c', refused, net'))
        → waits < tries
        → OpensAfter waits c' net' evtid net''
        → All IsAnswered (a ∷ rounds)
        → ajax_manager_thread tries (a ∷ rounds) c net
          ≡ done (
              some (
                request_of refusal_text ∷ exits (length rounds),
                record {
                  config = c';
                  evtid = pos evtid;
                  timestamp = pos 0;
                  license = warned;
                  net = net'';
                },
              ))
    unfolding ajax_manager_thread open_and_loop enter_loop
    ajax_manager_thread-refused waits tries a rounds c c' net net' net'' evtid socket room session
          soon opens answered =
        rw socket (
          rw session (
            rw (wait_session-OpensAfter waits tries c' net' evtid net'' soon opens) (
              rw room (
                rw
                  (link_loop-refused perform read_document read_json calloc a rounds
                    (record {
                      config = c';
                      evtid = pos evtid;
                      timestamp = pos 0;
                      license = refused;
                      net = net'';
                    })
                    answered)
                  refl))))
