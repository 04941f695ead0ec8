-- ===== src/Canometer/Session.antt =====
-- src/modules/canometroweb.c: the threads that read and write in turn behind the start of the module.
use agility_contest_serial_c.Base.{
  ℕ, ◌<◌, ◌≡◌, false, Option, none, some, List, [], ◌∷◌, length, ℤ, Text, codes, strcase_eq, Run,
  done, ◌>>=◌, Returns, Returns-bind, Any, ◌⊎◌, All, arith,
}
use agility_contest_serial_c.Config.{Configuration}
use agility_contest_serial_c.Tokens.{Tokens}
use agility_contest_serial_c.Canometer.{ReadXml}
use agility_contest_serial_c.Canometer.Documents.{
  FullDocuments, parse_status_xml-Returns, parse_config_xml-Returns,
}
use agility_contest_serial_c.Canometer.Link.{Put}
use agility_contest_serial_c.Canometer.Poll.{Canometer, module_read}
use agility_contest_serial_c.Canometer.Command.{module_write, names, synchronized}
use agility_contest_serial_c.Canometer.Locks.{
  Leaves, LeavesRead, module_read-releases, module_write-releases,
}
use agility_contest_serial_c.Canometer.Start.{
  Libraries, module_init, module_open, open_ring, open_reset, open_config, open_status, parsed_or,
}

-- a call of one of the threads, with the configuration at that time
pub data Op : Type 0 where
  reads : Configuration → Text → ℕ → Op
  writes : Configuration → Tokens → ℕ → Op

-- a command that is not synchronised, and WALK with its argument
abbrev pub IsOp : Op → Type 0
IsOp (reads c buffer size) = Unit
IsOp (writes c t n) =
    (names synchronized t.cmd ≡ false)
    × ((strcase_eq (codes "walk") t.cmd ≡ false) ⊎ (0 < length t.args))

module _ {N : Type 0} (put : Put N) (read_xml : ReadXml) where
  abbrev state_of_read : Option (ℤ × Text × Canometer N) → Option (Canometer N)
  state_of_read none = none
  state_of_read (some (res, buffer, m)) = some m

  abbrev state_of_write : Option (ℤ × Canometer N) → Option (Canometer N)
  state_of_write none = none
  state_of_write (some (res, m)) = some m

  -- `none` for a call that waits for ever
  unfoldable pub run_op : Op → Canometer N → Run (Option (Canometer N))
  unfolding module_read module_write
  run_op (reads c buffer size) m = do
    r ← module_read put read_xml c buffer size m
    done (state_of_read r)
  run_op (writes c t n) m = do r ← module_write put read_xml c m t n; done (state_of_write r)

  unfoldable pub run_ops : List Op → Option (Canometer N) → Run (Option (Canometer N))
  unfolding run_op
  run_ops ops none = done none
  run_ops [] (some m) = done (some m)
  run_ops (op ∷ ops) (some m) = do m' ← run_op op m; run_ops ops m'

  -- the start of the module and the calls behind it, whatever the start returns
  unfoldable pub session :
      Libraries → Configuration → Canometer N → List Op → Run (Option (Canometer N))
  unfolding module_init module_open run_ops
  session libs c m ops = do
    (res, m') ← module_open put read_xml c (module_init put read_xml libs c m).1
    run_ops ops (some m')

  -- a state in which the semaphore is free
  abbrev pub IsFree : Option (Canometer N) → Type 0
  IsFree none = ⊥
  IsFree (some m) = m.sem ≡ 1

  module _ (full : FullDocuments read_xml) where
    read-IsFree :
        (r : Option (ℤ × Text × Canometer N))
        → LeavesRead 1 r
        → Returns IsFree (done (state_of_read r))
    read-IsFree none h = absurd h
    read-IsFree (some (res, buffer, m)) h = h

    write-IsFree :
        (r : Option (ℤ × Canometer N)) → Leaves 1 r → Returns IsFree (done (state_of_write r))
    write-IsFree none h = absurd h
    write-IsFree (some (res, m)) h = h

    run_op-IsFree : (op : Op) (m : Canometer N) → IsOp op → m.sem ≡ 1 → Returns IsFree (run_op op m)
    unfolding run_op
    run_op-IsFree (reads c buffer size) m h free =
        Returns-bind (LeavesRead 1) IsFree (module_read put read_xml c buffer size m) _
          (module_read-releases put read_xml full c buffer size 0 m free) read-IsFree
    run_op-IsFree (writes c t n) m (other, argument) free =
        Returns-bind (Leaves 1) IsFree (module_write put read_xml c m t n) _
          (module_write-releases put read_xml full c m t n 0 free other argument) write-IsFree

    run_ops-IsFree :
        (ops : List Op) (m : Option (Canometer N))
        → All IsOp ops
        → IsFree m
        → Returns IsFree (run_ops ops m)
    unfolding run_ops
    run_ops-IsFree ops none h free = absurd free
    run_ops-IsFree [] (some m) h free = free
    run_ops-IsFree (op ∷ ops) (some m) (ho, hs) free =
        Returns-bind IsFree IsFree (run_op op m) _ (run_op-IsFree op m ho free)
          (λ m' free'. run_ops-IsFree ops m' hs free')

    abbrev Keeps1 : ℤ × Canometer N → Type 0
    Keeps1 (res, m) = m.sem ≡ 1

    open_status-Keeps1 :
        (m : Canometer N) (answer : Option Text × N)
        → m.sem ≡ 1
        → Returns Keeps1 (open_status put read_xml m answer)
    unfolding open_status
    open_status-Keeps1 m (none, net) free = free
    open_status-Keeps1 m (some answer, net) free =
        Returns-bind Any Keeps1 _ _ (parse_status_xml-Returns read_xml full m.cw_data answer)
          (λ d u. free)

    open_config-Keeps1 :
        (c : Configuration) (m : Canometer N) (answer : Option Text × N)
        → m.sem ≡ 1
        → Returns Keeps1 (open_config put read_xml c m answer)
    unfolding open_config
    open_config-Keeps1 c m (none, net) free = free
    open_config-Keeps1 c m (some answer, net) free =
        Returns-bind Any Keeps1 _ _ (parse_config_xml-Returns read_xml full m.cw_config answer)
          (λ s u.
            open_status-Keeps1
              (record m { cw_config = parsed_or put read_xml m.cw_config s; net = net }) _ free)

    open_reset-Keeps1 :
        (c : Configuration) (m : Canometer N) (answer : Option Text × N)
        → m.sem ≡ 1
        → Returns Keeps1 (open_reset put read_xml c m answer)
    unfolding open_reset
    open_reset-Keeps1 c m (none, net) free = free
    open_reset-Keeps1 c m (some answer, net) free = open_config-Keeps1 c m _ free

    open_ring-Keeps1 :
        (c : Configuration) (m : Canometer N) (answer : Option Text × N)
        → m.sem ≡ 1
        → Returns Keeps1 (open_ring put read_xml c m answer)
    unfolding open_ring
    open_ring-Keeps1 c m (none, net) free = free
    open_ring-Keeps1 c m (some answer, net) free = open_reset-Keeps1 c m _ free

    module_open-Keeps1 :
        (c : Configuration) (m : Canometer N)
        → m.sem ≡ 1
        → Returns Keeps1 (module_open put read_xml c m)
    unfolding module_open
    module_open-Keeps1 c m free = open_ring-Keeps1 c m _ free

    module_init-frees :
        (libs : Libraries) (c : Configuration) (m : Canometer N)
        → (module_init put read_xml libs c m).1.sem ≡ 1
    unfolding module_init
    module_init-frees libs c m = ground arith

    -- Behind the start of the module, whatever of it fails, no call of module_read and module_write waits for ever, in
    -- whatever order they come, and the semaphore is free behind the last: if no command is synchronised, every WALK has
    -- an argument, and the documents of the device have no empty elements.
    pub session-IsFree :
        (libs : Libraries) (c : Configuration) (m : Canometer N) (ops : List Op)
        → All IsOp ops
        → Returns IsFree (session libs c m ops)
    unfolding session
    session-IsFree libs c m ops h =
        let m' = (module_init put read_xml libs c m).1 in
        Returns-bind Keeps1 IsFree (module_open put read_xml c m') _
          (module_open-Keeps1 c m' (module_init-frees libs c m))
          (λ r free. run_ops-IsFree ops (some r.1) h free)
